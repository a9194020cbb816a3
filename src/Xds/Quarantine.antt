-- ===== src/Xds/Quarantine.antt =====
-- `TypeInternal`: the serving state of one resource type of one team
-- (crates/fp-xds/src/snapshot.rs).
use mathlib.Core.Option
use flowplane.Base.{
  ℕ, ◌+◌, ◌%◌, ◌^◌, Bool, true, false, not, ◌&&◌, ◌||◌, List, [], ◌∷◌, map, Option, none, some,
  Text, Dict, lookup, insert, ◌==◌, List-Eq, ℕ-Eq, if◌then◌else◌, any, all, find, retain, is_empty,
  length, nat_eq,
}
use flowplane.Xds.Resource.{Any, NamedResource, resources_eq}

pub record Quarantined : Type 0 where
  pub offending : List ℕ
  pub last_good : Option Any
  pub error : Text

pub record TypeInternal : Type 0 where
  pub version : ℕ
  pub raw : List NamedResource
  pub raw_prev : List NamedResource
  pub quarantine : Dict Text Quarantined
  pub translation_failures : Dict Text Text
  pub served : List NamedResource

-- `Default`.
abbrev pub default : TypeInternal
default = record {
  version = 0;
  raw = [];
  raw_prev = [];
  quarantine = [];
  translation_failures = [];
  served = [];
}

-- What is served for a resource: its own bytes, or in place of quarantined bytes the last good
-- ones, or nothing.
abbrev pub serve_as : NamedResource → Option Quarantined → Option NamedResource
serve_as r none = some r
serve_as r (some q) =
    if r.any.value == q.offending
    then Option.map (λ good. record { name = r.name; any = good }) q.last_good
    else some r

unfoldable pub serve_one : Dict Text Quarantined → NamedResource → Option NamedResource
serve_one quarantine r = serve_as r (lookup r.name quarantine)

abbrev pub cons_some : Option NamedResource → List NamedResource → List NamedResource
cons_some none rs = rs
cons_some (some r) rs = r ∷ rs

-- `filter_map`.
abbrev pub filter_map :
    (NamedResource → Option NamedResource) → List NamedResource → List NamedResource
filter_map f [] = []
filter_map f (r ∷ rs) = cons_some (f r) (filter_map f rs)

unfoldable pub recompute_served : TypeInternal → TypeInternal × Bool
recompute_served st =
    let served = filter_map (serve_one st.quarantine) st.raw in
    if not (resources_eq served st.served)
    then (record st { served = served; version = (st.version + 1) % 2 ^ 64 }, true)
    else (st, false)

-- `HashMap` equality: as many entries, and each one there.
abbrev maps_to : Option Text → Text → Bool
maps_to none v = false
maps_to (some w) v = w == v

abbrev pub failures_eq : Dict Text Text → Dict Text Text → Bool
failures_eq m n = nat_eq (length m) (length n) && all (λ e. maps_to (lookup e.0 n) e.1) m

-- The resource that a quarantine entry is about is there, with the bytes that were rejected.
abbrev pub is_current : List NamedResource → Text × Quarantined → Bool
is_current raw e = any (λ r. r.name == e.0 && r.any.value == e.1.offending) raw

-- The new generation takes the place of the old one, unless it is the same.
unfoldable pub rotate_raw : TypeInternal → List NamedResource → Dict Text Text → TypeInternal
rotate_raw st fresh failures =
    if not (resources_eq fresh st.raw)
    then record st { raw = fresh; raw_prev = st.raw; translation_failures = failures }
    else record st { translation_failures = failures }

-- Entries of resources that are gone, or whose bytes changed, leave the quarantine.
unfoldable pub prune : TypeInternal → TypeInternal
prune st = record st { quarantine = retain (is_current st.raw) st.quarantine }

unfoldable pub install_raw_with_failures :
    TypeInternal → List NamedResource → Dict Text Text → TypeInternal × Bool
unfolding rotate_raw prune recompute_served
install_raw_with_failures st fresh failures =
    let failures_changed = not (failures_eq st.translation_failures failures) in
    let (st', changed) = recompute_served (prune (rotate_raw st fresh failures)) in
    (st', changed || failures_changed)

unfoldable pub install_raw : TypeInternal → List NamedResource → TypeInternal × Bool
unfolding install_raw_with_failures
install_raw st fresh = install_raw_with_failures st fresh []

-- The resource of that name in a generation.
abbrev pub of_name : Text → List NamedResource → Option NamedResource
of_name name = find (λ p. p.name == name)

abbrev pub differs : Option NamedResource → NamedResource → Bool
differs none r = true
differs (some p) r = not (p.any.value == r.any.value)

abbrev pub is_offending : Option Quarantined → NamedResource → Bool
is_offending none r = false
is_offending (some q) r = q.offending == r.any.value

-- Changed since the previous generation, and not in quarantine for these bytes already.
unfoldable pub to_quarantine : List NamedResource → Dict Text Quarantined → NamedResource → Bool
to_quarantine raw_prev quarantine r =
    differs (of_name r.name raw_prev) r && not (is_offending (lookup r.name quarantine) r)

abbrev pub entry_for : List NamedResource → Text → NamedResource → Quarantined
entry_for raw_prev error r = record {
  offending = r.any.value;
  last_good = Option.map (λ p. p.any) (of_name r.name raw_prev);
  error = error;
}

-- The loop of `apply_nack`: the quarantine, and the names put in it.
unfoldable pub quarantine_changed :
    List NamedResource
    → Text
    → Dict Text Quarantined
    → List NamedResource
    → Dict Text Quarantined × List Text
unfolding to_quarantine
quarantine_changed raw_prev error quarantine [] = (quarantine, [])
quarantine_changed raw_prev error quarantine (r ∷ rs) =
    let hit = to_quarantine raw_prev quarantine r in
    let (q', names) =
      quarantine_changed raw_prev error
        (if hit then insert r.name (entry_for raw_prev error r) quarantine else quarantine) rs in
    (q', if hit then r.name ∷ names else names)

unfoldable pub apply_nack : TypeInternal → Text → TypeInternal × List Text × Bool
unfolding quarantine_changed recompute_served
apply_nack st error =
    if is_empty st.raw_prev
    then (st, [], false)
    else let (q', named) = quarantine_changed st.raw_prev error st.quarantine st.raw in
      let (st', changed) = recompute_served (record st { quarantine = q' }) in
      if is_empty named
      then (record st { quarantine = q' }, named, false)
      else (st', named, changed)

pub record ResourceSet : Type 0 where
  pub version : ℕ
  pub resources : List Any

unfoldable pub to_set : TypeInternal → ResourceSet
to_set st = record { version = st.version; resources = map (λ r. r.any) st.served }
