-- ===== src/Egress/Authority.antt =====
-- The host of a URL and the text of a range (crates/fp-core/src/services/egress_advisory.rs).
use flowplane.Base.{
  ℕ, ◌≡◌, false, not, ◌&&◌, ◌||◌, [], ◌∷◌, Option, none, some, Text, chars, all, is_empty, nat_eq,
  is_ascii_digit, split_once, if◌then◌else◌, Bool-cases, inl, inr, arith,
}

-- `rsplit_once` of one character: at its last place.
abbrev before_last : ℕ → ℕ → Text → Option (Text × Text) → Option (Text × Text)
before_last sep c s (some (front, back)) = some (c ∷ front, back)
before_last sep c s none = if nat_eq c sep then some ([], s) else none

unfoldable rsplit_once : ℕ → Text → Option (Text × Text)
rsplit_once sep [] = none
rsplit_once sep (c ∷ s) = before_last sep c s (rsplit_once sep s)

-- The first piece of a split at a slash or a question mark.
unfoldable first_piece : Text → Text
first_piece [] = []
first_piece (c ∷ s) =
    let rest = first_piece s in if nat_eq c 47 || nat_eq c 63 then [] else c ∷ rest

-- `map(|(_, rest)| rest).unwrap_or(whole)`.
abbrev after_or : Option (Text × Text) → Text → Text
after_or none whole = whole
after_or (some (front, rest)) whole = rest

-- `filter` by not being empty.
abbrev non_empty : Text → Option Text
non_empty [] = none
non_empty (c ∷ s) = some (c ∷ s)

abbrev front_of : Option (Text × Text) → Option Text
front_of none = none
front_of (some (host, rest)) = non_empty host

-- The host before a port of digits, or else the whole.
abbrev strip_port : Option (Text × Text) → Text → Text
strip_port none whole = whole
strip_port (some (host, port)) whole =
    if all is_ascii_digit port && not (is_empty port) then host else whole

-- A bracketed host, an empty one, or a host with a port.
unfoldable host_of : Text → Option Text
unfolding rsplit_once
host_of [] = none
host_of (c ∷ rest) =
    if nat_eq c 91
    then front_of (split_once (chars "]") rest)
    else non_empty (strip_port (rsplit_once 58 (c ∷ rest)) (c ∷ rest))

unfoldable pub authority_host : Text → Option Text
unfolding first_piece host_of split_once
authority_host url =
    let authority = first_piece (after_or (split_once (chars "://") url) url) in
    host_of (after_or (rsplit_once 64 authority) authority)

non_empty-some : (s : Text) {h : Text} → non_empty s ≡ some h → is_empty h ≡ false
non_empty-some [] e = cc
non_empty-some (c ∷ s) e = ground arith

front_of-some : (o : Option (Text × Text)) {h : Text} → front_of o ≡ some h → is_empty h ≡ false
front_of-some none e = cc
front_of-some (some (host, rest)) e = non_empty-some host e

host_of-some : (s : Text) {h : Text} → host_of s ≡ some h → is_empty h ≡ false
unfolding host_of
host_of-some [] e = cc
host_of-some (c ∷ rest) e = elim (Bool-cases (nat_eq c 91)) [
  | inl b ↦ front_of-some (split_once (chars "]") rest) (ground arith)
  | inr b ↦ non_empty-some (strip_port (rsplit_once 58 (c ∷ rest)) (c ∷ rest)) (ground arith)
]

-- The host of a URL is never empty.
pub authority_host-some : (url : Text) {h : Text} → authority_host url ≡ some h → is_empty h ≡ false
unfolding authority_host
authority_host-some url e =
    let authority = first_piece (after_or (split_once (chars "://") url) url) in
    host_of-some (after_or (rsplit_once 64 authority) authority) e
