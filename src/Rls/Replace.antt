-- ===== src/Rls/Replace.antt =====
-- What a push makes the cache answer.
use flowplane.Base.{
  ◌≡◌, refl, Bool, ◌&&◌, [], ◌∷◌, Option, none, some, Text, Dict, lookup as get, lookup-insert,
  ◌==◌, List-Eq, ℕ-Eq, if◌then◌else◌, Bool-cases, inl, inr,
}
use flowplane.Base.SortedMap.{text_eq_iff}
use flowplane.Domain.RateLimit.{descriptors_canonical}
use flowplane.Rls.Policy.{
  PushedPolicy, PolicyPush, MatchedPolicy, PolicyCache, matched, or_default, and_then, install,
  install_all, replace, lookup,
}

-- The last policy of the push for this namespace and canonical key.
abbrev pub matches : Text → Text → PushedPolicy → Bool
matches domain canonical p = p.domain == domain && descriptors_canonical p.descriptors == canonical

abbrev pub last_match : Text → Text → PolicyPush → Option MatchedPolicy → Option MatchedPolicy
last_match domain canonical [] found = found
last_match domain canonical (p ∷ ps) found =
    last_match domain canonical ps (if matches domain canonical p then some (matched p) else found)

get-or_default :
    (o : Option (Dict Text MatchedPolicy)) (c : Text)
    → get c (or_default o) ≡ and_then o (λ by_desc. get c by_desc)
unfolding get
get-or_default none c = refl
get-or_default (some m) c = refl

-- One round overrides the entry of its own namespace and key, and no other.
lookup-install :
    (cache : PolicyCache) (p : PushedPolicy) (d c : Text)
    → lookup (install cache p) d c ≡ (if matches d c p then some (matched p) else lookup cache d c)
unfolding lookup install
lookup-install cache p d c = elim (Bool-cases (p.domain == d)) [
  | inl same ↦
      rw (lookup-insert, same, lookup-insert, get-or_default, (text_eq_iff p.domain d).0 same)
  | inr other ↦ rw (lookup-insert, other)
]

lookup-install_all :
    (cache : PolicyCache) (ps : PolicyPush) (d c : Text)
    → lookup (install_all cache ps) d c ≡ last_match d c ps (lookup cache d c)
unfolding install_all
lookup-install_all cache [] d c = refl
lookup-install_all cache (p ∷ ps) d c =
    rw (← lookup-install cache p d c) (lookup-install_all (install cache p) ps d c)

-- After a push a lookup finds the last pushed policy for that namespace and canonical key, and
-- nothing of what the cache held before.
pub lookup-replace :
    (cache : PolicyCache) (push : PolicyPush) (d c : Text)
    → lookup (replace cache push) d c ≡ last_match d c push none
unfolding replace lookup get
lookup-replace cache push d c = lookup-install_all [] push d c
