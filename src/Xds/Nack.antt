-- ===== src/Xds/Nack.antt =====
-- What a dataplane gets after a rejection.
use mathlib.Core.List.{Memᴰ}
use flowplane.Base.{
  ◌≡◌, ◌≢◌, ◌⊎◌, refl, sym, ap, ◌∙◌, subst, inl, inr, List, [], ◌∷◌, Option, none, some, Text, Dict,
  lookup, ◌==◌, List-Eq, ℕ-Eq, All, All-lookup, Bool-cases, Option-cases, arith,
}
use flowplane.Base.SortedMap.{text_eq_iff}
use flowplane.Xds.Resource.{NamedResource}
use flowplane.Xds.Quarantine.{Quarantined, TypeInternal, serve_as, serve_one, cons_some, filter_map}
use flowplane.Xds.Served.{IsSafe, IsWell}

serve_as-safe :
    (r : NamedResource) (q : Quarantined) {s : NamedResource}
    → IsSafe (r.name, q)
    → serve_as r (some q) ≡ some s
    → (s.name ≡ r.name) × (s.any.value ≢ q.offending)
serve_as-safe r q {s} safe e = elim (Bool-cases (r.any.value == q.offending)) [
  | inl bad ↦ elim (Option-cases q.last_good) [
    | inl nothing ↦ ground arith
    | inr (good, kept) ↦ (ground arith, λ same. safe good kept (ground arith))
  ]
  | inr fine ↦ (ground arith, λ same. ground (arith, text_eq_iff r.any.value q.offending))
]

serve_one-safe :
    (quarantine : Dict Text Quarantined) (r : NamedResource) {s : NamedResource} {q : Quarantined}
    → All IsSafe quarantine
    → serve_one quarantine r ≡ some s
    → lookup s.name quarantine ≡ some q
    → s.any.value ≢ q.offending
unfolding serve_one
serve_one-safe quarantine r {s} {q} safe e found = elim (Option-cases (lookup r.name quarantine)) [
  | inl free ↦
      let plain : r ≡ s = ground arith in
      absurd (ground (arith, ap (λ (t : NamedResource). lookup t.name quarantine) plain))
  | inr (p, held) ↦
      let (same, ok) =
        serve_as-safe r p (All-lookup IsSafe r.name quarantine safe held) (rw held at e) in
      let one : p ≡ q = ground (arith, ap (λ n. lookup n quarantine) same) in
      λ bad. ok (bad ∙ ap (λ q. q.offending) (sym one))
]

cons_some-Memᴰ :
    (o : Option NamedResource) {rs : List NamedResource} {s : NamedResource}
    → Memᴰ s (cons_some o rs)
    → (o ≡ some s) ⊎ Memᴰ s rs
cons_some-Memᴰ none m = inr m
cons_some-Memᴰ (some t) (Memᴰ.head e) = inl (ap some (sym e))
cons_some-Memᴰ (some t) (Memᴰ.tail m) = inr m

filter_map-Memᴰ :
    (f : NamedResource → Option NamedResource) (rs : List NamedResource) {s : NamedResource}
    → Memᴰ s (filter_map f rs)
    → (r : NamedResource) × Memᴰ r rs × (f r ≡ some s)
filter_map-Memᴰ f [] m = elim m [ ]
filter_map-Memᴰ f (r ∷ rs) m = elim (cons_some-Memᴰ (f r) m) [
  | inl here ↦ (r, Memᴰ.head refl, here)
  | inr later ↦ let (t, n, e) = filter_map-Memᴰ f rs later in (t, Memᴰ.tail n, e)
]

-- In a well-formed state the rejected bytes of a resource in quarantine are not served.
pub served-safe :
    (st : TypeInternal) (s : NamedResource) (q : Quarantined)
    → IsWell st
    → Memᴰ s st.served
    → lookup s.name st.quarantine ≡ some q
    → s.any.value ≢ q.offending
served-safe st s q w m found =
    let (r, _, e) =
      filter_map-Memᴰ (serve_one st.quarantine) st.raw (subst (λ rs. Memᴰ s rs) w.current m) in
    serve_one-safe st.quarantine r w.safe e found
