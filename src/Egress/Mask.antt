-- ===== src/Egress/Mask.antt =====
-- The mask test of a range is equality of leading bits.
use Prim.Native.Nat.{bit_and, bit_and-bitwise, digits, min}
use native.Mathlib.Nat.{zero-min, pow-zero, pow-suc}
use flowplane.Base.{
  ℕ, zero, suc, ◌+◌, ◌-◌, ◌*◌, ◌/◌, ◌%◌, ◌^◌, ◌≤◌, ◌<◌, ◌≡◌, ◌↔◌, refl, sym, ap, subst, ◌∙◌, Bool,
  true, ◌&&◌, nat_eq, nat_eq_iff, Bool-cases, inl, inr, arith,
}
use flowplane.Egress.Addr.{mask, same_masked}

-- What is left of a number without its last bits, and a number with zeros after it.
abbrev pub leading : ℕ → ℕ → ℕ
leading zero n = n
leading (suc k) n = leading k (n / 2)

abbrev padded : ℕ → ℕ → ℕ
padded zero n = n
padded (suc k) n = 2 * padded k n

padded-injective : (k n m : ℕ) → padded k n ≡ padded k m → n ≡ m
padded-injective zero n m h = h
padded-injective (suc k) n m h = padded-injective k n m (omega arith)

abbrev ands : ℕ → ℕ → ℕ → ℕ
ands n a b = digits (λ b. zero) min n a b

-- The count of digits that the recursion runs on does not matter where it is enough.
ands_enough : (n m a b : ℕ) → a ≤ n → a ≤ m → ands n a b ≡ ands m a b
ands_enough zero zero a b h k = refl
ands_enough zero (suc m) zero b h k = refl
ands_enough zero (suc m) (suc a) b h k = absurd (omega arith)
ands_enough (suc n) zero zero b h k = refl
ands_enough (suc n) zero (suc a) b h k = absurd (omega arith)
ands_enough (suc n) (suc m) zero b h k = refl
ands_enough (suc n) (suc m) (suc a) b h k =
    ap (λ x. x * 2 + min (suc a % 2) (b % 2))
      (ands_enough n m (suc a / 2) (b / 2) (omega arith) (omega arith))

bit_and-ands : (a b : ℕ) → bit_and a b ≡ ands a a b
bit_and-ands a b = λ i. bit_and-bitwise a b i

ands_step : (a b : ℕ) → ands a a b ≡ ands (a / 2) (a / 2) (b / 2) * 2 + min (a % 2) (b % 2)
ands_step zero b = omega (arith, zero-min (b % 2))
ands_step (suc a) b =
    ap (λ x. x * 2 + min (suc a % 2) (b % 2))
      (ands_enough a (suc a / 2) (suc a / 2) (b / 2) (omega arith) (omega arith))

bit_and_step : (a b : ℕ) → bit_and a b ≡ bit_and (a / 2) (b / 2) * 2 + min (a % 2) (b % 2)
bit_and_step a b =
    bit_and-ands a b
    ∙ ands_step a b
    ∙ ap (λ x. x * 2 + min (a % 2) (b % 2)) (sym (bit_and-ands (a / 2) (b / 2)))

min-even : (x y : ℕ) → y ≡ 0 → min x y ≡ 0
min-even x y h = omega arith

min-odd : (x y : ℕ) → y ≡ 1 → x ≤ 1 → min x y ≡ x
min-odd x y h k = omega arith

-- A mask that ends in zeros keeps the leading bits only.
bit_and-even : (a m : ℕ) → bit_and a (2 * m) ≡ 2 * bit_and (a / 2) m
bit_and-even a m =
    let half : 2 * m / 2 ≡ m = omega arith in
    let even : 2 * m % 2 ≡ 0 = omega arith in
    let step = bit_and_step a (2 * m) in
    let same = ap (bit_and (a / 2)) half in
    let low = min-even (a % 2) (2 * m % 2) even in omega (arith, step, same, low)

bit_and-padded : (k a m : ℕ) → bit_and a (padded k m) ≡ padded k (bit_and (leading k a) m)
bit_and-padded zero a m = refl
bit_and-padded (suc k) a m =
    bit_and-even a (padded k m) ∙ ap (λ x. 2 * x) (bit_and-padded k (a / 2) m)

abbrev ones : ℕ → ℕ
ones zero = 0
ones (suc p) = 2 * ones p + 1

-- A number below `2 ^ p`, by its bits.
abbrev Fits : ℕ → ℕ → Type 0
Fits zero a = a ≡ 0
Fits (suc p) a = Fits p (a / 2)

bit_and-ones : (p a : ℕ) → Fits p a → bit_and a (ones p) ≡ a
bit_and-ones zero a h = ap (λ x. bit_and x 0) h ∙ bit_and-ands 0 0 ∙ sym h
bit_and-ones (suc p) a h =
    let half : (2 * ones p + 1) / 2 ≡ ones p = omega arith in
    let odd : (2 * ones p + 1) % 2 ≡ 1 = omega arith in
    let step = bit_and_step a (2 * ones p + 1) in
    let same = ap (bit_and (a / 2)) half in
    let rest = bit_and-ones p (a / 2) h in
    let low = min-odd (a % 2) ((2 * ones p + 1) % 2) odd (omega arith) in
    omega (arith, step, same, low, rest)

and-left : (b c : Bool) → (b && c) ≡ true → b ≡ true
and-left b c h = ground arith

and-right : (b c : Bool) → (b && c) ≡ true → c ≡ true
and-right b c h = ground arith

-- The masks of both widths, by computation.
abbrev pub all_below : ℕ → (ℕ → Bool) → Bool
all_below zero test = true
all_below (suc n) test = test n && all_below n test

all_below_sound :
    (n : ℕ) (test : ℕ → Bool) (i : ℕ) → all_below n test ≡ true → i < n → test i ≡ true
all_below_sound zero test i h lt = absurd (omega arith)
all_below_sound (suc n) test i h lt = elim (Bool-cases (nat_eq i n)) [
  | inl same ↦ ap test ((nat_eq_iff i n).0 same) ∙ and-left (test n) (all_below n test) h
  | inr other ↦ all_below_sound n test i (and-right (test n) (all_below n test) h) (ground arith)
]

abbrev pub is_prefix_mask : ℕ → ℕ → Bool
is_prefix_mask width prefix = nat_eq (mask width prefix) (padded (width - prefix) (ones prefix))

pub mask_v4 : all_below 33 (is_prefix_mask 32) ≡ true
mask_v4 = refl

pub mask_v6 : all_below 129 (is_prefix_mask 128) ≡ true
mask_v6 = refl

Fits-lt : (p a : ℕ) → a < 2 ^ p → Fits p a
Fits-lt zero a h = omega (arith, h, pow-zero 2)
Fits-lt (suc p) a h = Fits-lt p (a / 2) (omega (arith, h, pow-suc 2 p))

Fits-leading : (k p a : ℕ) → a < 2 ^ (p + k) → Fits p (leading k a)
Fits-leading zero p a h = Fits-lt p a (subst (λ n. a < 2 ^ n) (omega arith) h)
Fits-leading (suc k) p a h = Fits-leading k p (a / 2) (
    let wider : p + suc k ≡ suc (p + k) = omega arith in
    let size = ap (λ n. 2 ^ n) wider in omega (arith, h, size, pow-suc 2 (p + k)))

bit_and-leading :
    (width prefix a : ℕ)
    → mask width prefix ≡ padded (width - prefix) (ones prefix)
    → prefix ≤ width
    → a < 2 ^ width
    → bit_and a (mask width prefix) ≡ padded (width - prefix) (leading (width - prefix) a)
bit_and-leading width prefix a shape h lt =
    let whole : width ≡ prefix + (width - prefix) = omega arith in
    ap (bit_and a) shape
    ∙ bit_and-padded (width - prefix) a (ones prefix)
    ∙ ap (padded (width - prefix)) (
        bit_and-ones prefix (leading (width - prefix) a)
          (Fits-leading (width - prefix) prefix a (subst (λ n. a < 2 ^ n) whole lt)))

pub same_masked_iff :
    (width prefix net ip : ℕ)
    → all_below (suc width) (is_prefix_mask width) ≡ true
    → prefix ≤ width
    → net < 2 ^ width
    → ip < 2 ^ width
    → (same_masked width prefix net ip ≡ true)
      ↔ (leading (width - prefix) net ≡ leading (width - prefix) ip)
same_masked_iff width prefix net ip masks h lt lt_ip =
    let passed = all_below_sound (suc width) (is_prefix_mask width) prefix masks (omega arith) in
    let shape = (nat_eq_iff (mask width prefix) (padded (width - prefix) (ones prefix))).0 passed in
    let left = bit_and-leading width prefix net shape h lt in
    let right = bit_and-leading width prefix ip shape h lt_ip in
    let (f, g) = nat_eq_iff (bit_and net (mask width prefix)) (bit_and ip (mask width prefix)) in
    (
      λ e. padded-injective (width - prefix) _ _ (sym left ∙ f e ∙ right),
      λ e. g (left ∙ ap (padded (width - prefix)) e ∙ sym right),
    )
