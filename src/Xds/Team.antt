-- ===== src/Xds/Team.antt =====
-- The cache of all teams (crates/fp-xds/src/snapshot.rs): five resource types for each team, and the
-- change signal. The signal is a watch channel, which keeps the last value that was sent.
use flowplane.Base.{
  ℕ, ◌+◌, ◌%◌, ◌^◌, ◌≡◌, ◌↔◌, refl, ap, Bool, true, ◌||◌, List, [], ◌∷◌, Option, none, some, Text,
  chars, Dict, lookup, insert, Eq, List-Eq, ℕ-Eq, ◌==◌, nat_eq, nat_eq_iff, if◌then◌else◌, find,
  get_elem?,
}
use flowplane.Domain.Identity.{TeamId}
use flowplane.Xds.Resource.{NamedResource}
use flowplane.Xds.Quarantine.{
  TypeInternal, default, ResourceSet, to_set, install_raw, install_raw_with_failures, apply_nack,
}

pub data ResourceType : Type 0 where
  cluster endpoint route secret listener : ResourceType

-- The five constants.
abbrev pub type_url : ResourceType → Text
type_url cluster = chars "type.googleapis.com/envoy.config.cluster.v3.Cluster"
type_url endpoint = chars "type.googleapis.com/envoy.config.endpoint.v3.ClusterLoadAssignment"
type_url route = chars "type.googleapis.com/envoy.config.route.v3.RouteConfiguration"
type_url secret = chars "type.googleapis.com/envoy.extensions.transport_sockets.tls.v3.Secret"
type_url listener = chars "type.googleapis.com/envoy.config.listener.v3.Listener"

-- `TYPE_ORDER`.
abbrev pub type_order : List ResourceType
type_order = cluster ∷ endpoint ∷ route ∷ secret ∷ listener ∷ []

abbrev pub tag : ResourceType → ℕ
tag cluster = 0
tag endpoint = 1
tag route = 2
tag secret = 3
tag listener = 4

tag-get_elem? : (t : ResourceType) → get_elem? type_order (tag t) ≡ some t
tag-get_elem? cluster = refl
tag-get_elem? endpoint = refl
tag-get_elem? route = refl
tag-get_elem? secret = refl
tag-get_elem? listener = refl

tag-eq : (s t : ResourceType) → tag s ≡ tag t → s ≡ t
tag-eq s t h = cc (tag-get_elem? s, tag-get_elem? t, ap (get_elem? type_order) h)

pub tag_eq_iff : (s t : ResourceType) → (nat_eq (tag s) (tag t) ≡ true) ↔ (s ≡ t)
tag_eq_iff s t = (λ h. tag-eq s t ((nat_eq_iff _ _).0 h), λ e. (nat_eq_iff _ _).1 (ap tag e))

instance abbrev pub ResourceType-Eq : Eq ResourceType
ResourceType-Eq = record { eq = λ s t. nat_eq (tag s) (tag t); eq_iff = tag_eq_iff }

-- The type that a type url names, if it is one of the five.
unfoldable pub of_url : Text → Option ResourceType
of_url url = find (λ t. type_url t == url) type_order

pub record TeamInternal : Type 0 where
  pub clusters : TypeInternal
  pub endpoints : TypeInternal
  pub routes : TypeInternal
  pub secrets : TypeInternal
  pub listeners : TypeInternal

abbrev pub empty_team : TeamInternal
empty_team = record {
  clusters = default;
  endpoints = default;
  routes = default;
  secrets = default;
  listeners = default;
}

-- `for_type_mut`: what is read, and what is written back.
abbrev pub of_type : ResourceType → TeamInternal → TypeInternal
of_type cluster i = i.clusters
of_type endpoint i = i.endpoints
of_type route i = i.routes
of_type secret i = i.secrets
of_type listener i = i.listeners

abbrev pub set_type : ResourceType → TypeInternal → TeamInternal → TeamInternal
set_type cluster st i = record i { clusters = st }
set_type endpoint st i = record i { endpoints = st }
set_type route st i = record i { routes = st }
set_type secret st i = record i { secrets = st }
set_type listener st i = record i { listeners = st }

pub record SnapshotCache : Type 0 where
  pub snapshots : Dict TeamId TeamInternal
  pub change_tx : ℕ × Option TeamId
  pub change_seq : ℕ

abbrev pub new : SnapshotCache
new = record { snapshots = []; change_tx = (0, none); change_seq = 0 }

abbrev pub or_default : Option TeamInternal → TeamInternal
or_default none = empty_team
or_default (some i) = i

-- `team`, and `for_type_url` on what it returns.
unfoldable pub team_set : SnapshotCache → TeamId → ResourceType → ResourceSet
unfolding to_set
team_set cache team_id t = to_set (of_type t (or_default (lookup team_id cache.snapshots)))

unfoldable pub notify : SnapshotCache → TeamId → SnapshotCache
notify cache team_id =
    let seq = (cache.change_seq + 1) % 2 ^ 64 in
    record cache { change_seq = seq; change_tx = (seq, some team_id) }

abbrev pub notify_if : Bool → SnapshotCache → TeamId → SnapshotCache
notify_if changed cache team_id = if changed then notify cache team_id else cache

abbrev pub nack_found :
    SnapshotCache → TeamId → ResourceType → Text → Option TeamInternal → SnapshotCache × List Text
nack_found cache team_id t error none = (cache, [])
nack_found cache team_id t error (some i) =
    let (st, named, changed) = apply_nack (of_type t i) error in
    (
      notify_if changed
          (record cache { snapshots = insert team_id (set_type t st i) cache.snapshots }) team_id,
      named,
    )

unfoldable pub cache_nack : SnapshotCache → TeamId → ResourceType → Text → SnapshotCache × List Text
cache_nack cache team_id t error = nack_found cache team_id t error (lookup team_id cache.snapshots)

-- What translation made of the rows of a team.
pub record Translated : Type 0 where
  pub cluster_named : List NamedResource
  pub cluster_failures : Dict Text Text
  pub endpoint_named : List NamedResource
  pub route_named : List NamedResource
  pub route_failures : Dict Text Text
  pub listener_named : List NamedResource
  pub listener_failures : Dict Text Text
  pub secret_named : List NamedResource
  pub secret_failures : Dict Text Text

-- The end of `rebuild_team`: the five sets are installed in one step, with one signal.
unfoldable pub install_team : TeamInternal → Translated → TeamInternal × Bool
install_team i x =
    let (clusters, a) = install_raw_with_failures i.clusters x.cluster_named x.cluster_failures in
    let (endpoints, b) = install_raw i.endpoints x.endpoint_named in
    let (routes, c) = install_raw_with_failures i.routes x.route_named x.route_failures in
    let (listeners, d) =
      install_raw_with_failures i.listeners x.listener_named x.listener_failures in
    let (secrets, e) = install_raw_with_failures i.secrets x.secret_named x.secret_failures in
    (
      record {
        clusters = clusters;
        endpoints = endpoints;
        routes = routes;
        secrets = secrets;
        listeners = listeners;
      },
      a || b || c || d || e,
    )

unfoldable pub rebuild : SnapshotCache → TeamId → Translated → SnapshotCache
unfolding install_team
rebuild cache team_id x =
    let (i, changed) = install_team (or_default (lookup team_id cache.snapshots)) x in
    notify_if changed (record cache { snapshots = insert team_id i cache.snapshots }) team_id
