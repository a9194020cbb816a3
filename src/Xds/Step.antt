-- ===== src/Xds/Step.antt =====
-- The life of a type's serving state: fresh generations and rejections, in any order.
use flowplane.Base.{◌^◌, ◌<◌, ◌≡◌, ◌↔◌, List, [], ◌∷◌, Text, Dict, arith}
use flowplane.Xds.Resource.{NamedResource, resources_eq_iff}
use flowplane.Xds.Quarantine.{
  TypeInternal, default, serve_one, filter_map, recompute_served, rotate_raw, prune,
  install_raw_with_failures, quarantine_changed, apply_nack,
}
use flowplane.Xds.Served.{
  IsWell, default-IsWell, install_raw_with_failures-IsWell, apply_nack-IsWell,
}

pub data Update : Type 0 where
  install : List NamedResource → Dict Text Text → Update
  nack : Text → Update

unfoldable pub step : TypeInternal → Update → TypeInternal
step st (install fresh failures) = (install_raw_with_failures st fresh failures).0
step st (nack error) = (apply_nack st error).0

unfoldable pub run : TypeInternal → List Update → TypeInternal
unfolding step
run st [] = st
run st (u ∷ us) = run (step st u) us

run_from-IsWell : (st : TypeInternal) (us : List Update) → IsWell st → IsWell (run st us)
unfolding run
run_from-IsWell st [] w = w
run_from-IsWell st (install fresh failures ∷ us) w =
    run_from-IsWell (install_raw_with_failures st fresh failures).0 us
      (install_raw_with_failures-IsWell st fresh failures w)
run_from-IsWell st (nack error ∷ us) w =
    run_from-IsWell (apply_nack st error).0 us (apply_nack-IsWell st error w)

-- After any generations and rejections the served set is the current generation under the
-- quarantine, every quarantined resource is in that generation with the bytes that were rejected, and
-- none falls back to those bytes.
pub run-IsWell : (us : List Update) → IsWell (run default us)
run-IsWell us = run_from-IsWell default us default-IsWell

recompute_served-version_iff :
    (st : TypeInternal)
    → st.version < 2 ^ 64
    → ((recompute_served st).0.version ≡ st.version) ↔ ((recompute_served st).0.served ≡ st.served)
unfolding recompute_served
recompute_served-version_iff st lt =
    ground (arith, resources_eq_iff (filter_map (serve_one st.quarantine) st.raw) st.served)

prune-same :
    (st : TypeInternal) (fresh : List NamedResource) (failures : Dict Text Text)
    → ((prune (rotate_raw st fresh failures)).version ≡ st.version)
      × ((prune (rotate_raw st fresh failures)).served ≡ st.served)
unfolding prune rotate_raw
prune-same st fresh failures = (ground arith, ground arith)

-- An update changes the version of a type exactly when it changes what is served. The version is
-- below 2^64.
pub step-version_iff :
    (st : TypeInternal) (u : Update)
    → st.version < 2 ^ 64
    → ((step st u).version ≡ st.version) ↔ ((step st u).served ≡ st.served)
unfolding step install_raw_with_failures apply_nack
step-version_iff st (install fresh failures) lt =
    let (v, s) = prune-same st fresh failures in
    let i =
      recompute_served-version_iff (prune (rotate_raw st fresh failures)) (omega (arith, v)) in
    ground (arith, i)
step-version_iff st (nack error) lt =
    let q' = (quarantine_changed st.raw_prev error st.quarantine st.raw).0 in
    ground (arith, recompute_served-version_iff (record st { quarantine = q' }) lt)
