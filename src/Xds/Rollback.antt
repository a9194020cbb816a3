-- ===== src/Xds/Rollback.antt =====
-- What a rejection puts back, and how far back that is.
use mathlib.Core.Option
use flowplane.Base.{
  ℕ, ◌≡◌, ◌≢◌, refl, sym, ap, ◌∙◌, subst, inl, inr, true, false, List, [], ◌∷◌, Option, some, Text,
  Dict, lookup, insert, lookup-insert_self, lookup-insert_ne, All-map, All-map₂, not, ◌||◌, ◌==◌,
  List-Eq, ℕ-Eq, if◌then◌else◌, All, Bool-cases, Option-cases, arith, is_empty, ◌+◌, ◌%◌, ◌^◌,
}
use flowplane.Base.SortedMap.{text_eq_iff}
use flowplane.Xds.Resource.{NamedResource}
use flowplane.Xds.Quarantine.{
  Quarantined, TypeInternal, default, serve_as, serve_one, filter_map, recompute_served, rotate_raw,
  prune, install_raw_with_failures, of_name, differs, is_offending, to_quarantine, entry_for,
  quarantine_changed, apply_nack,
}
use flowplane.Xds.Served.{IsWell, apply_nack-IsWell}
use flowplane.Xds.Step.{install, nack, step, run}

-- No two resources of a generation share a name.
abbrev pub IsDistinct : List NamedResource → Type 0
IsDistinct [] = Unit
IsDistinct (r ∷ rs) = All (λ s. s.name ≢ r.name) rs × IsDistinct rs

-- A resource as the previous generation had it.
abbrev pub as_before : List NamedResource → NamedResource → Option NamedResource
as_before prev r =
    Option.map (λ (p : NamedResource). record { name = r.name; any = p.any }) (of_name r.name prev)

-- What a dataplane should get for a resource after it rejected a generation: what it got so far, if
-- the resource is in quarantine for its bytes or has not changed, else the resource as it was before.
abbrev pub rolled_back : TypeInternal → NamedResource → Option NamedResource
rolled_back st r =
    if is_offending (lookup r.name st.quarantine) r || not (differs (of_name r.name st.raw_prev) r)
    then serve_as r (lookup r.name st.quarantine)
    else as_before st.raw_prev r

module _ (prev : List NamedResource) (error : Text) where
  -- The loop leaves the entries of other names alone.
  quarantine_changed-other :
      (quarantine : Dict Text Quarantined) (rs : List NamedResource) (name : Text)
      → All (λ s. s.name ≢ name) rs
      → lookup name (quarantine_changed prev error quarantine rs).0 ≡ lookup name quarantine
  unfolding quarantine_changed
  quarantine_changed-other quarantine [] name h = refl
  quarantine_changed-other quarantine (r ∷ rs) name (h, hs) =
      elim (Bool-cases (to_quarantine prev quarantine r)) [
        | inl hit ↦ rw hit (
            quarantine_changed-other (insert r.name (entry_for prev error r) quarantine) rs name hs
            ∙ lookup-insert_ne r.name name (entry_for prev error r) quarantine h)
        | inr miss ↦ rw miss (quarantine_changed-other quarantine rs name hs)
      ]

  abbrev Outcome : Dict Text Quarantined → Dict Text Quarantined → NamedResource → Type 0
  Outcome quarantine after r =
      serve_one after r
      ≡ (if to_quarantine prev quarantine r then as_before prev r else serve_one quarantine r)

  serve_one-entry :
      (quarantine : Dict Text Quarantined) (r : NamedResource)
      → lookup r.name quarantine ≡ some (entry_for prev error r)
      → serve_one quarantine r ≡ as_before prev r
  unfolding serve_one
  serve_one-entry quarantine r e = elim (Option-cases (of_name r.name prev)) [
    | inl missing ↦ ground (arith, text_eq_iff r.any.value r.any.value)
    | inr (p, found) ↦ ground (arith, text_eq_iff r.any.value r.any.value)
  ]

  -- An entry of another name changes nothing for a resource.
  Outcome-insert :
      (quarantine after : Dict Text Quarantined) (h r : NamedResource)
      → h.name ≢ r.name
      → Outcome (insert h.name (entry_for prev error h) quarantine) after r
      → Outcome quarantine after r
  unfolding to_quarantine serve_one
  Outcome-insert quarantine after h r ne o =
      rw (lookup-insert_ne h.name r.name (entry_for prev error h) quarantine ne) at o

  after : Dict Text Quarantined → List NamedResource → Dict Text Quarantined
  after quarantine rs = (quarantine_changed prev error quarantine rs).0

  after-hit :
      (quarantine : Dict Text Quarantined) (r : NamedResource) (rs : List NamedResource)
      → to_quarantine prev quarantine r ≡ true
      → after quarantine (r ∷ rs) ≡ after (insert r.name (entry_for prev error r) quarantine) rs
  unfolding after quarantine_changed
  after-hit quarantine r rs hit = rw hit refl

  after-miss :
      (quarantine : Dict Text Quarantined) (r : NamedResource) (rs : List NamedResource)
      → to_quarantine prev quarantine r ≡ false
      → after quarantine (r ∷ rs) ≡ after quarantine rs
  unfolding after quarantine_changed
  after-miss quarantine r rs miss = rw miss refl

  serve_one-after :
      (quarantine : Dict Text Quarantined) (r : NamedResource) (rs : List NamedResource)
      → All (λ s. s.name ≢ r.name) rs
      → serve_one (after quarantine rs) r ≡ serve_one quarantine r
  unfolding after serve_one
  serve_one-after quarantine r rs d =
      ap (serve_as r) (quarantine_changed-other quarantine rs r.name d)

  serve_one-after-insert :
      (quarantine : Dict Text Quarantined) (r : NamedResource) (rs : List NamedResource)
      → All (λ s. s.name ≢ r.name) rs
      → serve_one (after (insert r.name (entry_for prev error r) quarantine) rs) r
        ≡ as_before prev r
  unfolding after
  serve_one-after-insert quarantine r rs d =
      let q' = insert r.name (entry_for prev error r) quarantine in
      serve_one-entry (after q' rs) r (
        quarantine_changed-other q' rs r.name d
        ∙ lookup-insert_self r.name (entry_for prev error r) quarantine)

  after-Outcome :
      (quarantine : Dict Text Quarantined) (rs : List NamedResource)
      → IsDistinct rs
      → All (Outcome quarantine (after quarantine rs)) rs
  after-Outcome quarantine [] d = tt
  after-Outcome quarantine (r ∷ rs) (d, ds) = elim (Bool-cases (to_quarantine prev quarantine r)) [
    | inl hit ↦
        let q' = insert r.name (entry_for prev error r) quarantine in
        let head : Outcome quarantine (after q' rs) r =
          rw hit (serve_one-after-insert quarantine r rs d) in
        subst (λ a. All (Outcome quarantine a) (r ∷ rs)) (sym (after-hit quarantine r rs hit))
          (
            head,
            All-map₂ rs (λ s ne. Outcome-insert quarantine (after q' rs) r s (λ e. ne (sym e))) d
                (after-Outcome q' rs ds),
          )
    | inr miss ↦
        let head : Outcome quarantine (after quarantine rs) r =
          rw miss (serve_one-after quarantine r rs d) in
        subst (λ a. All (Outcome quarantine a) (r ∷ rs)) (sym (after-miss quarantine r rs miss))
          (head, after-Outcome quarantine rs ds)
  ]

is_empty-eq : (rs : List NamedResource) → is_empty rs ≡ true → rs ≡ []
is_empty-eq [] e = refl
is_empty-eq (r ∷ rs) e = cc

filter_map-All :
    (f g : NamedResource → Option NamedResource) (rs : List NamedResource)
    → All (λ r. f r ≡ g r) rs
    → filter_map f rs ≡ filter_map g rs
filter_map-All f g [] h = refl
filter_map-All f g (r ∷ rs) (h, hs) = rw (h, filter_map-All f g rs hs) refl

apply_nack-quarantine :
    (st : TypeInternal) (error : Text)
    → st.raw_prev ≢ []
    → ((apply_nack st error).0.quarantine ≡ after st.raw_prev error st.quarantine st.raw)
      × ((apply_nack st error).0.raw ≡ st.raw)
unfolding apply_nack recompute_served after
apply_nack-quarantine st error later = (
  elim (Bool-cases (is_empty st.raw_prev)) [
    | inl first ↦ absurd (later (is_empty-eq st.raw_prev first))
    | inr _ ↦ ground arith
  ],
  ground arith,
)

rolled_back-Outcome :
    (st : TypeInternal) (r : NamedResource)
    → (if to_quarantine st.raw_prev st.quarantine r
        then as_before st.raw_prev r
        else serve_one st.quarantine r)
      ≡ rolled_back st r
unfolding to_quarantine serve_one
rolled_back-Outcome st r = ground arith

-- In a well-formed state with an earlier generation, a rejection of a generation without repeated names
-- rolls the served set back resource by resource: one that changed since that generation and is
-- not in quarantine for its bytes is served as it was then, or not at all if it is new, and every
-- other one is served as it was.
pub apply_nack-served :
    (st : TypeInternal) (error : Text)
    → IsWell st
    → IsDistinct st.raw
    → st.raw_prev ≢ []
    → (apply_nack st error).0.served ≡ filter_map (rolled_back st) st.raw
apply_nack-served st error w d later =
    let (q, r) = apply_nack-quarantine st error later in
    let served = (apply_nack-IsWell st error w).current in
    rw (served, q, r)
      (filter_map-All (serve_one (after st.raw_prev error st.quarantine st.raw)) (rolled_back st)
        st.raw
        (All-map st.raw (λ r o. o ∙ rolled_back-Outcome st r)
          (after-Outcome st.raw_prev error st.quarantine st.raw d)))

text_eq_self : (s : Text) → (s == s) ≡ true
text_eq_self s = (text_eq_iff s s).1 refl

text_eq_differ : (s t : Text) → s ≢ t → (s == t) ≡ false
text_eq_differ s t ne = ground (arith, text_eq_iff s t)

-- A generation with one resource.
abbrev pub single : Text → Text → List ℕ → List NamedResource
single name url value = record { name = name; any = record { type_url = url; value = value } } ∷ []

abbrev state :
    ℕ
    → List NamedResource
    → List NamedResource
    → Dict Text Quarantined
    → List NamedResource
    → TypeInternal
state version raw raw_prev quarantine served = record {
  version = version;
  raw = raw;
  raw_prev = raw_prev;
  quarantine = quarantine;
  translation_failures = [];
  served = served;
}

abbrev held : Text → List ℕ → List ℕ → Text → Quarantined
held url bad good error = record {
  offending = bad;
  last_good = some (record { type_url = url; value = good });
  error = error;
}

module _ (name url : Text) where
  step-first :
      (a : List ℕ)
      → step default (install (single name url a) [])
        ≡ state 1 (single name url a) [] [] (single name url a)
  unfolding step install_raw_with_failures rotate_raw prune recompute_served serve_one lookup
  step-first a = refl

  step-install :
      (a b : List ℕ)
      → a ≢ b
      → step
          (state 1 (single name url a) [] [] (single name url a))
          (install (single name url b) [])
        ≡ state 2 (single name url b) (single name url a) [] (single name url b)
  unfolding step install_raw_with_failures rotate_raw prune recompute_served serve_one lookup
  step-install a b ne =
      ground (arith, text_eq_iff a b, text_eq_iff b a, text_eq_self name, text_eq_self url)

  step-nack :
      (v : ℕ) (a b : List ℕ) (error : Text)
      → a ≢ b
      → step (state v (single name url b) (single name url a) [] (single name url b)) (nack error)
        ≡ state
            ((v + 1) % 2 ^ 64)
            (single name url b)
            (single name url a)
            ((name, held url b a error) ∷ [])
            (single name url a)
  unfolding step apply_nack quarantine_changed recompute_served serve_one lookup insert
      to_quarantine
  step-nack v a b error ne =
      ground (arith, text_eq_iff a b, text_eq_self name, text_eq_self url, text_eq_self b)

  step-install-held :
      (a b c : List ℕ) (error : Text)
      → a ≢ b
      → b ≢ c
      → a ≢ c
      → step
          (state 3
            (single name url b)
            (single name url a)
            ((name, held url b a error) ∷ [])
            (single name url a))
          (install (single name url c) [])
        ≡ state 4 (single name url c) (single name url b) [] (single name url c)
  unfolding step install_raw_with_failures rotate_raw prune recompute_served serve_one lookup
  step-install-held a b c error ab bc ac =
      ground (arith, text_eq_iff c a, text_eq_iff c b, text_eq_self name, text_eq_self url)

-- A dataplane that rejects one version of a resource and then the next one is served the first
-- rejected version again: for bytes that differ pairwise, after a generation with the resource, a
-- rejected one with new bytes, and a rejected one with other bytes still, the served set holds the
-- bytes of the first rejected one.
pub run-rejected :
    (name url e₁ e₂ : Text) (good bad worse : List ℕ)
    → good ≢ bad
    → bad ≢ worse
    → good ≢ worse
    → (run default (
        install (single name url good) []
        ∷ install (single name url bad) []
        ∷ nack e₁
        ∷ install (single name url worse) []
        ∷ nack e₂
        ∷ [])).served
      ≡ single name url bad
unfolding run
run-rejected name url e₁ e₂ good bad worse gb bw gw =
    let s₁ : step default (install (single name url good) [])
        ≡ state 1 (single name url good) [] [] (single name url good) =
      step-first name url good in
    rw
      (
        s₁,
        step-install name url good bad gb,
        step-nack name url 2 good bad e₁ gb,
        step-install-held name url good bad worse e₁ gb bw gw,
        step-nack name url 4 bad worse e₂ bw,
      )
      refl
