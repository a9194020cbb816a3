-- ===== src/Xds/Signal.antt =====
-- What a change of one team means for the others.
use flowplane.Base.{
  ℕ, ◌≡◌, ◌≢◌, refl, sym, ap, ◌∙◌, Bool, true, List, [], Option, some, Text, lookup, insert,
  lookup-insert_ne, ℕ-Eq, nat_eq_iff, arith, Option-cases, inl, inr,
}
use flowplane.Domain.Identity.{TeamId}
use flowplane.Xds.Quarantine.{apply_nack, to_set}
use flowplane.Xds.Team.{
  ResourceType, SnapshotCache, Translated, or_default, of_type, set_type, team_set, notify,
  notify_if, cache_nack, install_team, rebuild,
}
use flowplane.Xds.Ads.{AdsStream}
use flowplane.Xds.Handlers.{on_change}
use flowplane.Xds.Push.{is_stale}

-- The sets of a team are read from its entry, and the signal holds no set.
pub team_set-entry :
    (c d : SnapshotCache) (team_id : TeamId) (t : ResourceType)
    → lookup team_id c.snapshots ≡ lookup team_id d.snapshots
    → team_set c team_id t ≡ team_set d team_id t
unfolding team_set
team_set-entry c d team_id t e = ap (λ o. to_set (of_type t (or_default o))) e

pub notify_if-snapshots :
    (changed : Bool) (cache : SnapshotCache) (team_id : TeamId)
    → (notify_if changed cache team_id).snapshots ≡ cache.snapshots
unfolding notify
notify_if-snapshots changed cache team_id = ground arith

-- A rebuild of one team leaves what every other team is served as it was.
pub rebuild-team_set :
    (cache : SnapshotCache) (a b : TeamId) (x : Translated) (t : ResourceType)
    → a ≢ b
    → team_set (rebuild cache a x) b t ≡ team_set cache b t
unfolding rebuild
rebuild-team_set cache a b x t ne =
    let installed = install_team (or_default (lookup a cache.snapshots)) x in
    let next = record cache { snapshots = insert a installed.0 cache.snapshots } in
    team_set-entry (notify_if installed.1 next a) cache b t (
      ap (λ m. lookup b m) (notify_if-snapshots installed.1 next a)
      ∙ lookup-insert_ne a b installed.0 cache.snapshots ne)

-- A rejection by a dataplane of one team leaves what every other team is served as it was.
pub cache_nack-team_set :
    (cache : SnapshotCache) (a b : TeamId) (s t : ResourceType) (error : Text)
    → a ≢ b
    → team_set (cache_nack cache a s error).0 b t ≡ team_set cache b t
unfolding cache_nack
cache_nack-team_set cache a b s t error ne = elim (Option-cases (lookup a cache.snapshots)) [
  | inl missing ↦ rw missing refl
  | inr (i, found) ↦
      let r = apply_nack (of_type s i) error in
      let next = record cache { snapshots = insert a (set_type s r.0 i) cache.snapshots } in
      rw found (
        team_set-entry (notify_if r.2 next a) cache b t (
          ap (λ m. lookup b m) (notify_if-snapshots r.2 next a)
          ∙ lookup-insert_ne a b (set_type s r.0 i) cache.snapshots ne))
]

rebuild-signal :
    (cache : SnapshotCache) (a : TeamId) (x : Translated)
    → (install_team (or_default (lookup a cache.snapshots)) x).1 ≡ true
    → (rebuild cache a x).change_tx.1 ≡ some a
unfolding rebuild notify
rebuild-signal cache a x changed = rw changed refl

-- The watch channel keeps only the last change. When two teams are rebuilt before a stream of the
-- first one runs, and the second rebuild changed something, the wake-up names the second team: the
-- stream pushes nothing, and each of its types is as stale as after the first rebuild.
pub on_change-missed :
    (secret_name : List ℕ → Option Text) (cache : SnapshotCache) (a b : TeamId) (x y : Translated)
    (stream : AdsStream)
    → a ≢ b
    → stream.team ≡ some a
    → (install_team (or_default (lookup b (rebuild cache a x).snapshots)) y).1 ≡ true
    → (on_change secret_name (rebuild (rebuild cache a x) b y) stream ≡ (stream, []))
      × ((t : ResourceType)
          → is_stale (rebuild (rebuild cache a x) b y) a stream t
            ≡ is_stale (rebuild cache a x) a stream t)
unfolding on_change is_stale
on_change-missed secret_name cache a b x y stream ne own changed = (
  rw (own, rebuild-signal (rebuild cache a x) b y changed) (ground (arith, nat_eq_iff b a)),
  λ t. rw (rebuild-team_set (rebuild cache a x) b a y t (λ e. ne (sym e))) refl,
)
