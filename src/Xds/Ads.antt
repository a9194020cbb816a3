-- ===== src/Xds/Ads.antt =====
-- One ADS stream (crates/fp-xds/src/ads.rs): what it does on a request, on a change signal and on a
-- revocation. A decoder for secrets, the resolver of identities for the certificate of the
-- connection, and whether rejections are persisted are parameters. A client that closes the stream
-- ends it, and sends to an open stream succeed.
use flowplane.Base.{
  ℕ, ◌+◌, ◌%◌, ◌^◌, Bool, false, not, ◌||◌, List, [], ◌∷◌, ◌++◌, Option, none, some, Text, Dict,
  lookup, insert, List-Eq, ℕ-Eq, ◌==◌, nat_eq, if◌then◌else◌, any, retain, is_empty,
}
use flowplane.Base.SortedMap.{text_lt}
use flowplane.Base.Decimal.{to_string}
use flowplane.Domain.Identity.{TeamId}
use flowplane.Xds.Resource.{Any}
use flowplane.Xds.Quarantine.{ResourceSet}
use flowplane.Xds.Team.{ResourceType, secret, type_url, ResourceType-Eq, SnapshotCache, team_set}

pub record TypeState : Type 0 where
  pub subscribed : Bool
  pub sent_version : Option ℕ
  pub last_nonce : Text
  pub resource_names : List Text

abbrev pub default_state : TypeState
default_state = record {
  subscribed = false;
  sent_version = none;
  last_nonce = [];
  resource_names = [];
}

pub record DiscoveryRequest : Type 0 where
  pub node_id : Text
  pub type_url : Text
  pub resource_names : List Text
  pub response_nonce : Text
  pub version_info : Text
  pub error_detail : Option Text

pub record DiscoveryResponse : Type 0 where
  pub version_info : Text
  pub resources : List Any
  pub type_url : Text
  pub nonce : Text

pub record PeerIdentity : Type 0 where
  pub team_id : TeamId
  pub certificate_id : Option ℕ

pub data Status : Type 0 where
  unauthenticated permission_denied unavailable : Status

pub data Resolved : Type 0 where
  identity : PeerIdentity → Resolved
  refused : Status → Resolved

pub record NackRecord : Type 0 where
  pub team_id : TeamId
  pub node_id : Text
  pub type_url : Text
  pub version_rejected : Text
  pub error_message : Text
  pub quarantined_resources : List Text

-- What a turn of the loop sends to the dataplane, and what it leaves to be persisted.
pub data Effect : Type 0 where
  respond : DiscoveryResponse → Effect
  fail : Status → Effect
  persist : NackRecord → Effect

-- The variables of the loop.
pub record AdsStream : Type 0 where
  pub team : Option TeamId
  pub node_label : Text
  pub certificate_id : Option ℕ
  pub states : Dict ResourceType TypeState
  pub nonce_seq : ℕ

abbrev pub opened : AdsStream
opened = record { team = none; node_label = []; certificate_id = none; states = []; nonce_seq = 0 }

-- `sort`.
unfoldable pub insert_sorted : Text → List Text → List Text
insert_sorted name [] = name ∷ []
insert_sorted name (other ∷ names) =
    let rest = insert_sorted name names in
    if text_lt other name then other ∷ rest else name ∷ other ∷ names

unfoldable pub sort : List Text → List Text
unfolding insert_sorted
sort [] = []
sort (name ∷ names) = insert_sorted name (sort names)

-- The loop goes on with a stream, or returns.
pub record Turn : Type 0 where
  pub stream : AdsStream
  pub cache : SnapshotCache
  pub effects : List Effect
  pub returns : Bool

abbrev pub goes_on : AdsStream → SnapshotCache → List Effect → Turn
goes_on stream cache effects = record {
  stream = stream;
  cache = cache;
  effects = effects;
  returns = false;
}

abbrev pub or_default : Option TypeState → TypeState
or_default none = default_state
or_default (some state) = state

abbrev pub is_version : Option ℕ → ℕ → Bool
is_version none v = false
is_version (some w) v = nat_eq w v

abbrev pub names_found : (List ℕ → Option Text) → List Text → Any → Bool
names_found secret_name names resource = elim (secret_name resource.value) [
  | none ↦ false
  | some name ↦ any (λ n. n == name) names
]

-- Secrets are sent only by name.
unfoldable pub resources_for_response :
    (List ℕ → Option Text) → ResourceType → ResourceSet → List Text → List Any
resources_for_response secret_name t set names =
    if not (t == secret)
    then set.resources
    else if is_empty names
    then []
    else retain (names_found secret_name names) set.resources

-- The response, its nonce, and the counter of nonces.
abbrev pub response_for : ResourceType → ℕ → List Any → ℕ → DiscoveryResponse × Text × ℕ
response_for t version resources nonce_seq =
    let seq = (nonce_seq + 1) % 2 ^ 64 in
    let nonce = to_string seq in
    (
      record {
        version_info = to_string version;
        resources = resources;
        type_url = type_url t;
        nonce = nonce;
      },
      nonce,
      seq,
    )

module _ (secret_name : List ℕ → Option Text) where
  -- The set that the cache holds now, under a new nonce, and what the stream remembers of it.
  unfoldable pub answer :
      SnapshotCache → TeamId → ResourceType → TypeState → AdsStream → AdsStream × DiscoveryResponse
  unfolding resources_for_response
  answer cache team_id t state stream =
      let set = team_set cache team_id t in
      let resources = resources_for_response secret_name t set state.resource_names in
      let (response, nonce, seq) = response_for t set.version resources stream.nonce_seq in
      (
        record stream {
          states =
              insert t (record state { sent_version = some set.version; last_nonce = nonce })
                stream.states;
          nonce_seq = seq;
        },
        response,
      )

  -- A type in the loop over `TYPE_ORDER`.
  abbrev push_state :
      SnapshotCache → TeamId → ResourceType → AdsStream → Option TypeState → AdsStream × List Effect
  push_state cache team_id t stream none = (stream, [])
  push_state cache team_id t stream (some state) =
      let (stream', response) = answer cache team_id t state stream in
      if not state.subscribed || is_version state.sent_version (team_set cache team_id t).version
      then (stream, [])
      else (stream', respond response ∷ [])

  unfoldable pub push_type :
      SnapshotCache → TeamId → ResourceType → AdsStream → AdsStream × List Effect
  push_type cache team_id t stream = push_state cache team_id t stream (lookup t stream.states)

  unfoldable pub push_types :
      SnapshotCache → TeamId → List ResourceType → AdsStream → AdsStream × List Effect
  unfolding push_type
  push_types cache team_id [] stream = (stream, [])
  push_types cache team_id (t ∷ ts) stream =
      let (stream', now) = push_type cache team_id t stream in
      let (stream'', later) = push_types cache team_id ts stream' in (stream'', now ++ later)
