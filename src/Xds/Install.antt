-- ===== src/Xds/Install.antt =====
-- What a rebuild of a team installs, and when it is signalled.
use mathlib.Core.List.{Memᴰ}
use flowplane.Base.{
  ◌≡◌, ◌≢◌, ◌⊎◌, refl, ap, ◌∙◌, inl, inr, Bool, true, false, ◌||◌, ◌&&◌, Bool-cases, List, [], ◌∷◌,
  map, Option, none, some, Text, Dict, lookup, insert, lookup-insert_self, IsKeyed, kept,
  lookup-retain, retain, any_complete, All, ◌==◌, List-Eq, ℕ-Eq, arith,
}
use flowplane.Base.SortedMap.{text_eq_iff}
use flowplane.Domain.Identity.{TeamId}
use flowplane.Xds.Resource.{NamedResource, resources_eq_iff}
use flowplane.Xds.Quarantine.{
  Quarantined, TypeInternal, to_set, serve_as, serve_one, filter_map, recompute_served, is_current,
  rotate_raw, prune, install_raw, install_raw_with_failures,
}
use flowplane.Xds.Served.{recompute_served-served, All-self}
use flowplane.Xds.Team.{
  ResourceType, cluster, endpoint, route, secret, listener, SnapshotCache, Translated, TeamInternal,
  or_default, of_type, team_set, notify, install_team, rebuild,
}
use flowplane.Xds.Signal.{rebuild-team_set, notify_if-snapshots}

-- What translation made for a type.
abbrev pub translated : ResourceType → Translated → List NamedResource
translated cluster x = x.cluster_named
translated endpoint x = x.endpoint_named
translated route x = x.route_named
translated secret x = x.secret_named
translated listener x = x.listener_named

rotate_raw-raw :
    (st : TypeInternal) (fresh : List NamedResource) (failures : Dict Text Text)
    → ((rotate_raw st fresh failures).raw ≡ fresh)
      × ((rotate_raw st fresh failures).quarantine ≡ st.quarantine)
unfolding rotate_raw
rotate_raw-raw st fresh failures = (ground (arith, resources_eq_iff fresh st.raw), ground arith)

-- A quarantine entry that is dropped kept nothing out.
serve_kept :
    (raw : List NamedResource) (r : NamedResource) (o : Option Quarantined)
    → Memᴰ r raw
    → serve_as r (kept (is_current raw) r.name o) ≡ serve_as r o
serve_kept raw r none m = refl
serve_kept raw r (some q) m = elim (Bool-cases (r.any.value == q.offending)) [
  | inl same ↦
      let current : is_current raw (r.name, q) ≡ true =
        any_complete (λ s. s.name == r.name && s.any.value == q.offending) raw m
          (ground (arith, text_eq_iff r.name r.name)) in
      rw current refl
  | inr other ↦ elim (Bool-cases (is_current raw (r.name, q))) [
    | inl keep ↦ rw keep refl
    | inr gone ↦ rw (gone, other) refl
  ]
]

serve_pruned :
    (raw : List NamedResource) (quarantine : Dict Text Quarantined) (rs : List NamedResource)
    → IsKeyed quarantine
    → All (λ r. Memᴰ r raw) rs
    → filter_map (serve_one (retain (is_current raw) quarantine)) rs
      ≡ filter_map (serve_one quarantine) rs
unfolding serve_one
serve_pruned raw quarantine [] k h = refl
serve_pruned raw quarantine (r ∷ rs) k (m, ms) =
    rw
      (
        lookup-retain (is_current raw) r.name quarantine k,
        serve_kept raw r (lookup r.name quarantine) m,
        serve_pruned raw quarantine rs k ms,
      )
      refl

-- A fresh generation is served, with quarantined bytes replaced.
install-served :
    (st : TypeInternal) (fresh : List NamedResource) (failures : Dict Text Text)
    → IsKeyed st.quarantine
    → (install_raw_with_failures st fresh failures).0.served
      ≡ filter_map (serve_one st.quarantine) fresh
unfolding install_raw_with_failures prune
install-served st fresh failures k =
    let (raw, quarantine) = rotate_raw-raw st fresh failures in
    recompute_served-served (prune (rotate_raw st fresh failures))
    ∙ rw (raw, quarantine) (serve_pruned fresh st.quarantine fresh k (All-self fresh))

recompute-to_set :
    (st : TypeInternal)
    → (recompute_served st).1 ≡ false
    → to_set (recompute_served st).0 ≡ to_set st
unfolding recompute_served
recompute-to_set st h = ground arith

prune-to_set :
    (st : TypeInternal) (fresh : List NamedResource) (failures : Dict Text Text)
    → to_set (prune (rotate_raw st fresh failures)) ≡ to_set st
unfolding prune rotate_raw to_set
prune-to_set st fresh failures = ground arith

-- Without a change that is reported, the set is as it was.
install-to_set :
    (st : TypeInternal) (fresh : List NamedResource) (failures : Dict Text Text)
    → (install_raw_with_failures st fresh failures).1 ≡ false
    → to_set (install_raw_with_failures st fresh failures).0 ≡ to_set st
unfolding install_raw_with_failures
install-to_set st fresh failures h =
    recompute-to_set (prune (rotate_raw st fresh failures)) (ground arith)
    ∙ prune-to_set st fresh failures

team-served :
    (old : TeamInternal) (x : Translated) (t : ResourceType)
    → IsKeyed (of_type t old).quarantine
    → (of_type t (install_team old x).0).served
      ≡ filter_map (serve_one (of_type t old).quarantine) (translated t x)
unfolding install_team install_raw
team-served old x cluster k = install-served old.clusters x.cluster_named x.cluster_failures k
team-served old x endpoint k = install-served old.endpoints x.endpoint_named [] k
team-served old x route k = install-served old.routes x.route_named x.route_failures k
team-served old x secret k = install-served old.secrets x.secret_named x.secret_failures k
team-served old x listener k = install-served old.listeners x.listener_named x.listener_failures k

none_changed :
    (a b c d e : Bool)
    → (a || b || c || d || e) ≡ false
    → (a ≡ false) × (b ≡ false) × (c ≡ false) × (d ≡ false) × (e ≡ false)
none_changed a b c d e h = (ground arith, ground arith, ground arith, ground arith, ground arith)

nothing_changed :
    (old : TeamInternal) (x : Translated)
    → (install_team old x).1 ≡ false
    → ((install_raw_with_failures old.clusters x.cluster_named x.cluster_failures).1 ≡ false)
      × ((install_raw_with_failures old.endpoints x.endpoint_named []).1 ≡ false)
      × ((install_raw_with_failures old.routes x.route_named x.route_failures).1 ≡ false)
      × ((install_raw_with_failures old.listeners x.listener_named x.listener_failures).1 ≡ false)
      × ((install_raw_with_failures old.secrets x.secret_named x.secret_failures).1 ≡ false)
unfolding install_team install_raw
nothing_changed old x h =
    none_changed (install_raw_with_failures old.clusters x.cluster_named x.cluster_failures).1
      (install_raw_with_failures old.endpoints x.endpoint_named []).1
      (install_raw_with_failures old.routes x.route_named x.route_failures).1
      (install_raw_with_failures old.listeners x.listener_named x.listener_failures).1
      (install_raw_with_failures old.secrets x.secret_named x.secret_failures).1 h

team-to_set :
    (old : TeamInternal) (x : Translated) (t : ResourceType)
    → (install_team old x).1 ≡ false
    → to_set (of_type t (install_team old x).0) ≡ to_set (of_type t old)
unfolding install_team install_raw
team-to_set old x cluster h =
    install-to_set old.clusters x.cluster_named x.cluster_failures (nothing_changed old x h).0
team-to_set old x endpoint h =
    install-to_set old.endpoints x.endpoint_named [] (nothing_changed old x h).1
team-to_set old x route h =
    install-to_set old.routes x.route_named x.route_failures (nothing_changed old x h).2
team-to_set old x listener h =
    install-to_set old.listeners x.listener_named x.listener_failures (nothing_changed old x h).3
team-to_set old x secret h =
    install-to_set old.secrets x.secret_named x.secret_failures (nothing_changed old x h).4

rebuild-own :
    (cache : SnapshotCache) (a : TeamId) (x : Translated) (t : ResourceType)
    → team_set (rebuild cache a x) a t
      ≡ to_set (of_type t (install_team (or_default (lookup a cache.snapshots)) x).0)
unfolding rebuild team_set
rebuild-own cache a x t =
    let installed = install_team (or_default (lookup a cache.snapshots)) x in
    let next = record cache { snapshots = insert a installed.0 cache.snapshots } in
    rw (notify_if-snapshots installed.1 next a, lookup-insert_self a installed.0 cache.snapshots)
      refl

-- The set of the type is as it was, or the signal names the team.
signalled :
    (cache : SnapshotCache) (a : TeamId) (x : Translated) (t : ResourceType)
    → (team_set (rebuild cache a x) a t ≡ team_set cache a t)
      ⊎ ((rebuild cache a x).change_tx.1 ≡ some a)
unfolding rebuild team_set notify
signalled cache a x t =
    let old = or_default (lookup a cache.snapshots) in
    elim (Bool-cases (install_team old x).1) [
      | inl changed ↦ inr rw changed refl
      | inr same ↦ inl (rebuild-own cache a x t ∙ team-to_set old x t same)
    ]

-- After a rebuild of a team, every other team is served what it was served. The team is served, for
-- each type, what translation made for that type, in order; where the quarantine of the type holds
-- those bytes, the last good ones stand in for them, or nothing. And the set of the type is as it was,
-- its version included, or the change signal names the team. No name is in the quarantine twice.
pub rebuild-IsInstalled :
    (cache : SnapshotCache) (a b : TeamId) (x : Translated) (t : ResourceType)
    → a ≢ b
    → IsKeyed (of_type t (or_default (lookup a cache.snapshots))).quarantine
    → (team_set (rebuild cache a x) b t ≡ team_set cache b t)
      × ((team_set (rebuild cache a x) a t).resources
          ≡ map
              (λ r. r.any)
              (filter_map
                (serve_one (of_type t (or_default (lookup a cache.snapshots))).quarantine)
                (translated t x)))
      × ((team_set (rebuild cache a x) a t ≡ team_set cache a t)
          ⊎ ((rebuild cache a x).change_tx.1 ≡ some a))
unfolding to_set
rebuild-IsInstalled cache a b x t ne keyed = (
  rebuild-team_set cache a b x t ne,
  ap (λ s. s.resources) (rebuild-own cache a x t)
      ∙ ap (map (λ r. r.any)) (team-served (or_default (lookup a cache.snapshots)) x t keyed),
  signalled cache a x t,
)
