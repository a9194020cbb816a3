-- ===== src/Xds/Reply.antt =====
-- What a stream answers to requests, and whose resources it sends.
use flowplane.Base.{
  ℕ, ◌+◌, ◌%◌, ◌^◌, ◌≡◌, refl, ap, ◌∙◌, Bool, true, false, List, [], ◌∷◌, Option, none, some, Text,
  lookup, insert, lookup-insert_self, List-Eq, ℕ-Eq, list_eq_iff, length, All, Bool-cases,
  Option-cases, inl, inr,
}
use flowplane.Base.SortedMap.{text_eq_iff}
use flowplane.Base.Decimal.{to_string, to_string-ne-nil}
use flowplane.Domain.Identity.{TeamId}
use flowplane.Xds.Team.{ResourceType, type_url, of_url, ResourceType-Eq, SnapshotCache, team_set}
use flowplane.Xds.Ads.{
  TypeState, or_default, DiscoveryRequest, Resolved, Effect, respond, fail, persist, AdsStream,
  goes_on, sort, resources_for_response, answer,
}
use flowplane.Xds.Handlers.{
  same_names, is_reply, subscribe, on_team, on_reply, on_type, on_url, on_request,
}

-- A response with the whole current set of a team for a type, secrets by name.
abbrev pub IsCurrent : (List ℕ → Option Text) → SnapshotCache → TeamId → Effect → Type 0
IsCurrent secret_name cache team_id (respond r) =
    (t : ResourceType) × (names : List Text) × (r.type_url ≡ type_url t)
    × (r.version_info ≡ to_string (team_set cache team_id t).version)
    × (r.resources ≡ resources_for_response secret_name t (team_set cache team_id t) names)
IsCurrent secret_name cache team_id (fail status) = Unit
IsCurrent secret_name cache team_id (persist nack) = Unit

same_names_self : (names : List Text) → same_names names names ≡ true
same_names_self names = (list_eq_iff (List-Eq {A = ℕ}) names names).1 refl

abbrev pub nonce_of : List Effect → Text
nonce_of (respond r ∷ es) = r.nonce
nonce_of _ = []

-- The acknowledgement of a response to a request: the request again, with the nonce of the response.
abbrev pub ack_of : List Effect → DiscoveryRequest → DiscoveryRequest
ack_of effects req = record req { response_nonce = nonce_of effects; error_detail = none }

module _ (secret_name : List ℕ → Option Text) (resolve : Text → Resolved) (nack_pool : Bool)
    (cache : SnapshotCache) (team_id : TeamId) where
  answer-IsCurrent :
      (t : ResourceType) (state : TypeState) (stream : AdsStream)
      → IsCurrent secret_name cache team_id
          (respond (answer secret_name cache team_id t state stream).1)
  unfolding answer
  answer-IsCurrent t state stream = (t, state.resource_names, refl, refl, refl)

  on_reply-IsCurrent :
      (t : ResourceType) (stream : AdsStream) (req : DiscoveryRequest) (error : Option Text)
      → All
          (IsCurrent secret_name cache team_id)
          (on_reply secret_name resolve nack_pool cache team_id t stream req error).effects
  on_reply-IsCurrent t stream req none = tt
  on_reply-IsCurrent t stream req (some e) =
      elim nack_pool
        as (λ b.
          All (IsCurrent secret_name cache team_id)
            (on_reply secret_name resolve b cache team_id t stream req (some e)).effects) [
              | true ↦ (tt, tt)
              | false ↦ tt
            ]

  on_type-IsCurrent :
      (t : ResourceType) (stream : AdsStream) (req : DiscoveryRequest) (state : TypeState)
      → All
          (IsCurrent secret_name cache team_id)
          (on_type secret_name resolve nack_pool cache team_id t stream req state).effects
  unfolding on_type
  on_type-IsCurrent t stream req state = elim (Bool-cases (is_reply state req)) [
    | inl reply ↦ rw reply (
        on_reply-IsCurrent t
          (record stream { states = insert t (subscribe state req) stream.states }) req
          req.error_detail)
    | inr fresh ↦ rw fresh (answer-IsCurrent t (subscribe state req) stream, tt)
  ]

  on_request-on_url :
      (stream : AdsStream) (req : DiscoveryRequest)
      → stream.team ≡ some team_id
      → on_request secret_name resolve nack_pool cache stream req
        ≡ on_url secret_name resolve nack_pool cache team_id stream req (of_url req.type_url)
  unfolding on_request
  on_request-on_url stream req own = ap (on_team secret_name resolve nack_pool cache stream req) own

  -- A stream of a team is only ever answered with the current sets of that team.
  pub on_request-IsCurrent :
      (stream : AdsStream) (req : DiscoveryRequest)
      → stream.team ≡ some team_id
      → All
          (IsCurrent secret_name cache team_id)
          (on_request secret_name resolve nack_pool cache stream req).effects
  on_request-IsCurrent stream req own = elim (Option-cases (of_url req.type_url)) [
    | inl unknown ↦ rw (on_request-on_url stream req own, unknown) tt
    | inr (t, known) ↦
        rw (on_request-on_url stream req own, known)
          (on_type-IsCurrent t stream req (or_default (lookup t stream.states)))
  ]

  abbrev ack : AdsStream → DiscoveryRequest → DiscoveryRequest
  ack stream req = record req {
    response_nonce = to_string ((stream.nonce_seq + 1) % 2 ^ 64);
    error_detail = none;
  }

  answer-state :
      (t : ResourceType) (state : TypeState) (stream : AdsStream)
      → lookup t (answer secret_name cache team_id t state stream).0.states
        ≡ some (record state {
          sent_version = some (team_set cache team_id t).version;
          last_nonce = to_string ((stream.nonce_seq + 1) % 2 ^ 64);
        })
  unfolding answer
  answer-state t state stream =
      lookup-insert_self t
        (record state {
          sent_version = some (team_set cache team_id t).version;
          last_nonce = to_string ((stream.nonce_seq + 1) % 2 ^ 64);
        })
        stream.states

  ack-is_reply :
      (t : ResourceType) (state : TypeState) (stream : AdsStream) (req : DiscoveryRequest)
      → is_reply
          (record (subscribe state req) {
            sent_version = some (team_set cache team_id t).version;
            last_nonce = to_string ((stream.nonce_seq + 1) % 2 ^ 64);
          })
          (ack stream req)
        ≡ true
  ack-is_reply t state stream req =
      let nonce = to_string ((stream.nonce_seq + 1) % 2 ^ 64) in
      rw
        (
          same_names_self (sort req.resource_names),
          to_string-ne-nil ((stream.nonce_seq + 1) % 2 ^ 64),
          (text_eq_iff nonce nonce).1 refl,
        )
        refl

  on_request-answer :
      (t : ResourceType) (stream : AdsStream) (req : DiscoveryRequest)
      → stream.team ≡ some team_id
      → of_url req.type_url ≡ some t
      → is_reply (or_default (lookup t stream.states)) req ≡ false
      → let state = subscribe (or_default (lookup t stream.states)) req in
        on_request secret_name resolve nack_pool cache stream req
        ≡ goes_on
            (answer secret_name cache team_id t state stream).0
            cache
            (respond (answer secret_name cache team_id t state stream).1 ∷ [])
  unfolding on_type
  on_request-answer t stream req own known fresh =
      rw (on_request-on_url stream req own, known, fresh) refl

  answer-team :
      (t : ResourceType) (state : TypeState) (stream : AdsStream)
      → (answer secret_name cache team_id t state stream).0.team ≡ stream.team
  unfolding answer
  answer-team t state stream = refl

  on_request-silent :
      (t : ResourceType) (stream : AdsStream) (req : DiscoveryRequest)
      → stream.team ≡ some team_id
      → of_url req.type_url ≡ some t
      → is_reply (or_default (lookup t stream.states)) req ≡ true
      → req.error_detail ≡ none
      → ((on_request secret_name resolve nack_pool cache stream req).effects ≡ [])
        × ((on_request secret_name resolve nack_pool cache stream req).cache ≡ cache)
  unfolding on_type
  on_request-silent t stream req own known reply fine = (
    rw (on_request-on_url stream req own, known, reply, fine) refl,
    rw (on_request-on_url stream req own, known, reply, fine) refl,
  )

  -- On a stream of a team, a request for one of the five types that is no reply gets one response. The
  -- same request with the nonce of that response and no error, its acknowledgement, gets no
  -- response and leaves the cache as it was.
  pub on_request-ack :
      (t : ResourceType) (stream : AdsStream) (req : DiscoveryRequest)
      → stream.team ≡ some team_id
      → of_url req.type_url ≡ some t
      → is_reply (or_default (lookup t stream.states)) req ≡ false
      → let turn = on_request secret_name resolve nack_pool cache stream req in
        (length turn.effects ≡ 1)
        × ((on_request secret_name resolve nack_pool cache turn.stream
              (ack_of turn.effects req)).effects
            ≡ [])
        × ((on_request secret_name resolve nack_pool cache turn.stream
              (ack_of turn.effects req)).cache
            ≡ cache)
  unfolding answer
  on_request-ack t stream req own known fresh =
      let state = subscribe (or_default (lookup t stream.states)) req in
      let next = (answer secret_name cache team_id t state stream).0 in
      let reply : is_reply (or_default (lookup t next.states)) (ack stream req) ≡ true =
        rw (answer-state t state stream)
          (ack-is_reply t (or_default (lookup t stream.states)) stream req) in
      let silence =
        on_request-silent t next (ack stream req) (answer-team t state stream ∙ own) known reply
          refl in
      rw (on_request-answer t stream req own known fresh) (refl, silence.0, silence.1)
