-- ===== src/Xds/Tests.antt =====
-- The theorems of the snapshot cache at concrete generations.
use mathlib.Core.List.{Memᴰ}
use flowplane.Base.{
  ℕ, ◌≡◌, ◌≢◌, refl, List, [], ◌∷◌, some, Text, chars, lookup, insert, List-Eq, ℕ-Eq, arith,
}
use flowplane.Xds.Quarantine.{
  TypeInternal, default, filter_map, serve_one, install_raw_with_failures, apply_nack, rotate_raw,
  prune, recompute_served, quarantine_changed, to_quarantine,
}
use flowplane.Xds.Served.{IsWell}
use flowplane.Xds.Nack.{served-safe}
use flowplane.Xds.Step.{Update, install, nack, step, run, run-IsWell}
use flowplane.Xds.Rollback.{single, rolled_back, apply_nack-served, run-rejected}

abbrev listener : Text
listener = chars "listener"

abbrev url : Text
url = chars "type.googleapis.com/envoy.config.listener.v3.Listener"

abbrev error : Text
error = chars "no such port"

-- A generation that is served, and one that was rejected.
abbrev updates : List Update
updates = install (single listener url (1 ∷ [])) [] ∷ install (single listener url (2 ∷ [])) [] ∷ []

abbrev rejected : TypeInternal
rejected = run default (
    install (single listener url (1 ∷ [])) []
    ∷ install (single listener url (2 ∷ [])) []
    ∷ nack error
    ∷ [])

run-IsWell_example : IsWell (run default updates)
run-IsWell_example = run-IsWell updates

rejected-served : rejected.served ≡ single listener url (1 ∷ [])
unfolding run step install_raw_with_failures apply_nack rotate_raw prune recompute_served
    quarantine_changed to_quarantine serve_one lookup insert
rejected-served = refl

rejected-lookup :
    lookup listener rejected.quarantine
    ≡ some (record {
      offending = 2 ∷ [];
      last_good = some (record { type_url = url; value = 1 ∷ [] });
      error = error;
    })
unfolding run step install_raw_with_failures apply_nack rotate_raw prune recompute_served
    quarantine_changed to_quarantine serve_one lookup insert
rejected-lookup = refl

served-safe_example : ◌≢◌ {A = List ℕ} (1 ∷ []) (2 ∷ [])
unfolding run step install_raw_with_failures apply_nack rotate_raw prune recompute_served
    quarantine_changed to_quarantine serve_one lookup insert
served-safe_example =
    served-safe rejected
      (record { name = listener; any = record { type_url = url; value = 1 ∷ [] } })
      (record {
        offending = 2 ∷ [];
        last_good = some (record { type_url = url; value = 1 ∷ [] });
        error = error;
      })
      (run-IsWell (
        install (single listener url (1 ∷ [])) []
        ∷ install (single listener url (2 ∷ [])) []
        ∷ nack error
        ∷ []))
      (Memᴰ.head refl) rejected-lookup

apply_nack-served_example :
    (apply_nack (run default updates) error).0.served
    ≡ filter_map (rolled_back (run default updates)) (run default updates).raw
unfolding run step install_raw_with_failures rotate_raw prune recompute_served serve_one lookup
apply_nack-served_example =
    apply_nack-served (run default updates) error (run-IsWell updates) (tt, tt) (λ e. ground arith)

run-rejected_example :
    (run default (
      install (single listener url (1 ∷ [])) []
      ∷ install (single listener url (2 ∷ [])) []
      ∷ nack error
      ∷ install (single listener url (3 ∷ [])) []
      ∷ nack error
      ∷ [])).served
    ≡ single listener url (2 ∷ [])
run-rejected_example =
    run-rejected listener url error error (1 ∷ []) (2 ∷ []) (3 ∷ []) (λ e. ground arith)
      (λ e. ground arith) (λ e. ground arith)
