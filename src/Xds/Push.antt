-- ===== src/Xds/Push.antt =====
-- What a change signal makes a stream push.
use flowplane.Base.{
  ℕ, ◌+◌, ◌%◌, ◌^◌, ◌≡◌, ◌≢◌, refl, sym, ap, ◌∙◌, Bool, true, false, not, ◌&&◌, List, [], ◌∷◌, ◌++◌,
  map, Option, none, some, Text, lookup, lookup-insert_self, lookup-insert_ne, retain, All, All-map,
  List-Eq, ℕ-Eq, nat_eq_iff, if◌then◌else◌, arith, Option-cases, inl, inr,
}
use flowplane.Base.Decimal.{to_string}
use flowplane.Domain.Identity.{TeamId}
use flowplane.Xds.Team.{
  ResourceType, type_url, type_order, tag, ResourceType-Eq, SnapshotCache, team_set,
}
use flowplane.Xds.Ads.{
  TypeState, is_version, Effect, respond, fail, persist, AdsStream, answer, push_type, push_types,
}
use flowplane.Xds.Handlers.{is_other, on_change}

-- The type urls of the responses, in the order in which they are sent.
abbrev pub urls : List Effect → List Text
urls [] = []
urls (respond r ∷ es) = r.type_url ∷ urls es
urls (fail status ∷ es) = urls es
urls (persist record_ ∷ es) = urls es

abbrev is_stale_state : ℕ → Option TypeState → Bool
is_stale_state version none = false
is_stale_state version (some state) =
    state.subscribed && not (is_version state.sent_version version)

-- A type that is subscribed, and was last sent in another version than the cache holds.
unfoldable pub is_stale : SnapshotCache → TeamId → AdsStream → ResourceType → Bool
is_stale cache team_id stream t =
    is_stale_state (team_set cache team_id t).version (lookup t stream.states)

-- The types of a list that are stale.
abbrev pub stale_urls : SnapshotCache → TeamId → List ResourceType → AdsStream → List Text
stale_urls cache team_id ts stream = map type_url (retain (is_stale cache team_id stream) ts)

urls-append : (es fs : List Effect) → urls (es ++ fs) ≡ urls es ++ urls fs
urls-append [] fs = refl
urls-append (respond r ∷ es) fs = ap (λ us. r.type_url ∷ us) (urls-append es fs)
urls-append (fail status ∷ es) fs = urls-append es fs
urls-append (persist n ∷ es) fs = urls-append es fs

abbrev Distinct : List ResourceType → Type 0
Distinct [] = Unit
Distinct (t ∷ ts) = All (λ u. t ≢ u) ts × Distinct ts

version-is : (v : ℕ) → is_version (some v) v ≡ true
version-is v = ground (arith, nat_eq_iff v v)

module _ (secret_name : List ℕ → Option Text) (cache : SnapshotCache) (team_id : TeamId) where
  push_type-urls :
      (t : ResourceType) (stream : AdsStream)
      → urls (push_type secret_name cache team_id t stream).1
        ≡ (if is_stale cache team_id stream t then type_url t ∷ [] else [])
  unfolding push_type is_stale answer
  push_type-urls t stream = elim (Option-cases (lookup t stream.states)) [
    | inl missing ↦ rw missing refl
    | inr (state, found) ↦ rw found (ground arith)
  ]

  -- What the stream remembers of a type that it pushes.
  unfoldable sent : ResourceType → AdsStream → TypeState → TypeState
  sent t stream state = record state {
    sent_version = some (team_set cache team_id t).version;
    last_nonce = to_string ((stream.nonce_seq + 1) % 2 ^ 64);
  }

  push_type-fresh :
      (t : ResourceType) (stream : AdsStream)
      → is_stale cache team_id (push_type secret_name cache team_id t stream).0 t ≡ false
  unfolding push_type is_stale answer sent
  push_type-fresh t stream = elim (Option-cases (lookup t stream.states)) [
    | inl missing ↦ rw (missing, missing) refl
    | inr (state, found) ↦ rw found (
        ground (
          arith,
          lookup-insert_self t (sent t stream state) stream.states,
          version-is (team_set cache team_id t).version,
        ))
  ]

  push_type-other :
      (t u : ResourceType) (stream : AdsStream)
      → t ≢ u
      → is_stale cache team_id (push_type secret_name cache team_id t stream).0 u
        ≡ is_stale cache team_id stream u
  unfolding push_type is_stale answer sent
  push_type-other t u stream ne = elim (Option-cases (lookup t stream.states)) [
    | inl missing ↦ rw missing refl
    | inr (state, found) ↦
        rw found (ground (arith, lookup-insert_ne t u (sent t stream state) stream.states ne))
  ]

  push_types-other :
      (ts : List ResourceType) (u : ResourceType) (stream : AdsStream)
      → All (λ t. t ≢ u) ts
      → is_stale cache team_id (push_types secret_name cache team_id ts stream).0 u
        ≡ is_stale cache team_id stream u
  unfolding push_types
  push_types-other [] u stream d = refl
  push_types-other (t ∷ ts) u stream (ne, ds) =
      push_types-other ts u (push_type secret_name cache team_id t stream).0 ds
      ∙ push_type-other t u stream ne

  push_types-fresh :
      (ts : List ResourceType) (stream : AdsStream)
      → Distinct ts
      → All
          (λ t. is_stale cache team_id (push_types secret_name cache team_id ts stream).0 t ≡ false)
          ts
  unfolding push_types
  push_types-fresh [] stream d = tt
  push_types-fresh (t ∷ ts) stream (d, ds) =
      let next = (push_type secret_name cache team_id t stream).0 in
      (
        push_types-other ts t next (All-map ts (λ u ne e. ne (sym e)) d) ∙ push_type-fresh t stream,
        push_types-fresh ts next ds,
      )

  stale_urls-other :
      (t : ResourceType) (ts : List ResourceType) (stream : AdsStream)
      → All (λ u. t ≢ u) ts
      → stale_urls cache team_id ts (push_type secret_name cache team_id t stream).0
        ≡ stale_urls cache team_id ts stream
  stale_urls-other t [] stream d = refl
  stale_urls-other t (u ∷ us) stream (ne, ds) =
      ground (arith, push_type-other t u stream ne, stale_urls-other t us stream ds)

  push_types-urls :
      (ts : List ResourceType) (stream : AdsStream)
      → Distinct ts
      → urls (push_types secret_name cache team_id ts stream).1 ≡ stale_urls cache team_id ts stream
  unfolding push_types
  push_types-urls [] stream d = refl
  push_types-urls (t ∷ ts) stream (d, ds) =
      let next = (push_type secret_name cache team_id t stream).0 in
      rw
        (
          urls-append,
          push_type-urls t stream,
          push_types-urls ts next ds,
          stale_urls-other t ts stream d,
        )
        (ground arith)

  push_type-idle :
      (t : ResourceType) (stream : AdsStream)
      → is_stale cache team_id stream t ≡ false
      → push_type secret_name cache team_id t stream ≡ (stream, [])
  unfolding push_type is_stale
  push_type-idle t stream h = elim (Option-cases (lookup t stream.states)) [
    | inl missing ↦ rw missing refl
    | inr (state, found) ↦ rw found (ground arith)
  ]

  push_types-idle :
      (ts : List ResourceType) (stream : AdsStream)
      → All (λ t. is_stale cache team_id stream t ≡ false) ts
      → push_types secret_name cache team_id ts stream ≡ (stream, [])
  unfolding push_types
  push_types-idle [] stream h = refl
  push_types-idle (t ∷ ts) stream (h, hs) =
      rw (push_type-idle t stream h, push_types-idle ts stream hs) refl

  push_type-team :
      (t : ResourceType) (stream : AdsStream)
      → (push_type secret_name cache team_id t stream).0.team ≡ stream.team
  unfolding push_type answer
  push_type-team t stream = elim (Option-cases (lookup t stream.states)) [
    | inl missing ↦ rw missing refl
    | inr (state, found) ↦ rw found (ground arith)
  ]

  pub push_types-team :
      (ts : List ResourceType) (stream : AdsStream)
      → (push_types secret_name cache team_id ts stream).0.team ≡ stream.team
  unfolding push_types
  push_types-team [] stream = refl
  push_types-team (t ∷ ts) stream =
      push_types-team ts (push_type secret_name cache team_id t stream).0 ∙ push_type-team t stream

type_order-Distinct : Distinct type_order
type_order-Distinct = (
  (
    λ e. omega (arith, ap tag e),
    (
      λ e. omega (arith, ap tag e),
      (λ e. omega (arith, ap tag e), (λ e. omega (arith, ap tag e), tt)),
    ),
  ),
  (
    (
      λ e. omega (arith, ap tag e),
      (λ e. omega (arith, ap tag e), (λ e. omega (arith, ap tag e), tt)),
    ),
    (
      (λ e. omega (arith, ap tag e), (λ e. omega (arith, ap tag e), tt)),
      ((λ e. omega (arith, ap tag e), tt), (tt, tt)),
    ),
  ),
)

module _ (secret_name : List ℕ → Option Text) (cache : SnapshotCache) (team_id : TeamId) where
  on_change-push :
      (stream : AdsStream)
      → stream.team ≡ some team_id
      → is_other cache.change_tx.1 team_id ≡ false
      → on_change secret_name cache stream ≡ push_types secret_name cache team_id type_order stream
  unfolding on_change
  on_change-push stream own awake = rw (own, awake) refl

  -- A wake-up for its team makes a stream push exactly the subscribed types whose version differs
  -- from the one it last sent, each once and in make-before-break order.
  pub on_change-urls :
      (stream : AdsStream)
      → stream.team ≡ some team_id
      → is_other cache.change_tx.1 team_id ≡ false
      → urls (on_change secret_name cache stream).1 ≡ stale_urls cache team_id type_order stream
  on_change-urls stream own awake =
      rw (on_change-push stream own awake)
        (push_types-urls secret_name cache team_id type_order stream type_order-Distinct)

  -- After a wake-up for its team, a second one with the same cache pushes nothing and changes nothing.
  pub on_change-again :
      (stream : AdsStream)
      → stream.team ≡ some team_id
      → is_other cache.change_tx.1 team_id ≡ false
      → on_change secret_name cache (on_change secret_name cache stream).0
        ≡ ((on_change secret_name cache stream).0, [])
  on_change-again stream own awake =
      let after = (push_types secret_name cache team_id type_order stream).0 in
      rw (on_change-push stream own awake) (
        on_change-push after (push_types-team secret_name cache team_id type_order stream ∙ own)
          awake
        ∙ push_types-idle secret_name cache team_id type_order after
            (push_types-fresh secret_name cache team_id type_order stream type_order-Distinct))
