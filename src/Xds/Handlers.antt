-- ===== src/Xds/Handlers.antt =====
-- The three branches of the loop of an ADS stream (crates/fp-xds/src/ads.rs).
use flowplane.Base.{
  ℕ, Bool, true, false, not, ◌&&◌, List, [], ◌∷◌, Option, none, some, Text, lookup, insert, List-Eq,
  ℕ-Eq, ◌==◌, nat_eq, list_eq, if◌then◌else◌, is_empty,
}
use flowplane.Domain.Identity.{TeamId}
use flowplane.Xds.Team.{
  ResourceType, of_url, type_order, ResourceType-Eq, SnapshotCache, cache_nack,
}
use flowplane.Xds.Ads.{
  TypeState, or_default, DiscoveryRequest, PeerIdentity, permission_denied, unavailable, Resolved,
  identity, refused, Effect, respond, fail, persist, AdsStream, Turn, goes_on, sort, answer,
  push_types,
}

abbrev pub same_names : List Text → List Text → Bool
same_names = list_eq (list_eq nat_eq)

-- A request that echoes the last nonce with the names of the last request.
abbrev pub is_reply : TypeState → DiscoveryRequest → Bool
is_reply state req =
    same_names (sort req.resource_names) state.resource_names
    && not (is_empty req.response_nonce)
    && req.response_nonce == state.last_nonce

-- What the request makes of the subscription.
abbrev pub subscribe : TypeState → DiscoveryRequest → TypeState
subscribe state req = record state { subscribed = true; resource_names = sort req.resource_names }

-- The first request binds the stream to the team of its certificate.
abbrev pub bind : AdsStream → DiscoveryRequest → PeerIdentity → AdsStream
bind stream req peer = record stream {
  team = some peer.team_id;
  node_label = req.node_id;
  certificate_id = peer.certificate_id;
}

module _ (secret_name : List ℕ → Option Text) (resolve : Text → Resolved) (nack_pool : Bool) where
  -- An acknowledgement or a rejection.
  abbrev pub on_reply :
      SnapshotCache → TeamId → ResourceType → AdsStream → DiscoveryRequest → Option Text → Turn
  on_reply cache team_id t stream req none = goes_on stream cache []
  on_reply cache team_id t stream req (some error) =
      let (cache', quarantined) = cache_nack cache team_id t error in
      goes_on stream cache' (
        if nack_pool
        then persist (record {
          team_id = team_id;
          node_id = stream.node_label;
          type_url = req.type_url;
          version_rejected = req.version_info;
          error_message = error;
          quarantined_resources = quarantined;
        })
          ∷ []
        else [])

  -- A request for one of the five types.
  unfoldable pub on_type :
      SnapshotCache → TeamId → ResourceType → AdsStream → DiscoveryRequest → TypeState → Turn
  unfolding answer
  on_type cache team_id t stream req state =
      let stream' = record stream { states = insert t (subscribe state req) stream.states } in
      let (stream'', response) = answer secret_name cache team_id t (subscribe state req) stream in
      if is_reply state req
      then on_reply cache team_id t stream' req req.error_detail
      else goes_on stream'' cache (respond response ∷ [])

  abbrev pub on_url :
      SnapshotCache → TeamId → AdsStream → DiscoveryRequest → Option ResourceType → Turn
  on_url cache team_id stream req none = goes_on stream cache []
  on_url cache team_id stream req (some t) =
      on_type cache team_id t stream req (or_default (lookup t stream.states))

  abbrev pub on_identity : SnapshotCache → AdsStream → DiscoveryRequest → Resolved → Turn
  on_identity cache stream req (refused status) = record {
    stream = stream;
    cache = cache;
    effects = fail status ∷ [];
    returns = true;
  }
  on_identity cache stream req (identity peer) =
      on_url cache peer.team_id (bind stream req peer) req (of_url req.type_url)

  abbrev pub on_team : SnapshotCache → AdsStream → DiscoveryRequest → Option TeamId → Turn
  on_team cache stream req none = on_identity cache stream req (resolve req.node_id)
  on_team cache stream req (some team_id) = on_url cache team_id stream req (of_url req.type_url)

  unfoldable pub on_request : SnapshotCache → AdsStream → DiscoveryRequest → Turn
  on_request cache stream req = on_team cache stream req stream.team

-- The wake-up reads the last value of the watch channel.
abbrev pub is_other : Option TeamId → TeamId → Bool
is_other none team_id = false
is_other (some changed_team) team_id = not (nat_eq changed_team team_id)

module _ (secret_name : List ℕ → Option Text) where
  abbrev on_change_of : SnapshotCache → AdsStream → Option TeamId → AdsStream × List Effect
  on_change_of cache stream none = (stream, [])
  on_change_of cache stream (some team_id) =
      if is_other cache.change_tx.1 team_id
      then (stream, [])
      else push_types secret_name cache team_id type_order stream

  unfoldable pub on_change : SnapshotCache → AdsStream → AdsStream × List Effect
  on_change cache stream = on_change_of cache stream stream.team

-- What the broadcast channel of revocations delivers.
pub data Revocation : Type 0 where
  revoked : ℕ → Revocation
  lagged closed : Revocation

abbrev is_cert : Option ℕ → ℕ → Bool
is_cert none id = false
is_cert (some mine) id = nat_eq mine id

abbrev is_bound : Option ℕ → Bool
is_bound none = false
is_bound (some mine) = true

-- The effects, and whether the stream ends.
unfoldable pub on_revocation : AdsStream → Revocation → List Effect × Bool
on_revocation stream (revoked id) =
    if is_cert stream.certificate_id id then (fail permission_denied ∷ [], true) else ([], false)
on_revocation stream lagged =
    if is_bound stream.certificate_id then (fail unavailable ∷ [], true) else ([], false)
on_revocation stream closed = ([], true)
