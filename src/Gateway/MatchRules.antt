-- ===== src/Gateway/MatchRules.antt =====
-- What the validation of matchers, rate-limit descriptors and rewrites accepts.
use Prim.Native.String.{String}
use flowplane.Base.{
  ℕ, ◌≤◌, ◌≡◌, ◌↔◌, refl, Bool, true, false, ◌||◌, List, Option, none, some, Text, chars, length,
  is_empty, nat_eq, All, len, is_control, is_whitespace, starts_with, contains_text, contains_char,
  any_none,
}
use flowplane.Domain.Error.{ok}
use flowplane.Domain.Checks.{
  Given, ◌&◌, both, passes, if_present, each, neither, none_of_three, none_of_four, holds, is_false,
  at_most,
}
use flowplane.Gateway.Matchers.{
  PathMatch, prefix, exact, template, regex, ValueMatch, present, exact_value, prefix_value,
  suffix_value, contains_value, regex_value, HeaderMatch, QueryParameterMatch, valid_token,
  valid_path, valid_match_value, valid_regex, validate_value, validate_path_match,
  validate_header_match, validate_query_match,
}
use flowplane.Gateway.RouteConfig.{
  RateLimitAction, request_headers, generic_key, RateLimitDefinition,
}
use flowplane.Gateway.RouteConfig.Validate.{
  validate_rate_limit_action, validate_rate_limit, validate_rate_limits, check_rewrites,
}

abbrev pub is_gap : ℕ → Bool
is_gap c = is_control c || is_whitespace c || nat_eq c 0

abbrev pub IsToken : ℕ → Text → Type 0
IsToken max_len value =
    (is_empty value ≡ false) & (len value ≤ max_len) & All (λ c. is_gap c ≡ false) value

pub IsToken-iff :
    (label : String) (value : Text) → (valid_token label value ≡ ok tt) ↔ IsToken 128 value
unfolding valid_token
IsToken-iff label value =
    passes _ _
      (none_of_three (is_false (is_empty value)) (at_most (len value) 128) (any_none is_gap value))

abbrev pub IsRoutePath : Text → Type 0
IsRoutePath path =
    (starts_with path (chars "/") ≡ true)
    & (contains_text path (chars "..") ≡ false)
    & (len path ≤ 500)
    & (contains_char 0 path ≡ false)

pub path_iff : (label : String) (path : Text) → (valid_path label path ≡ ok tt) ↔ IsRoutePath path
unfolding valid_path
path_iff label path = passes _ _ (
    none_of_four (holds (starts_with path (chars "/"))) (is_false (contains_text path (chars "..")))
      (at_most (len path) 500) (is_false (contains_char 0 path)))

abbrev pub IsPiece : Text → Type 0
IsPiece value = (is_empty value ≡ false) & (len value ≤ 500) & (contains_char 0 value ≡ false)

value_iff :
    (label : String) (value : Text) → (valid_match_value label value ≡ ok tt) ↔ IsPiece value
unfolding valid_match_value
value_iff label value = passes _ _ (
    none_of_three (is_false (is_empty value)) (at_most (len value) 500)
      (is_false (contains_char 0 value)))

regex_iff : (label : String) (value : Text) → (valid_regex label value ≡ ok tt) ↔ IsPiece value
unfolding valid_regex
regex_iff label value = passes _ _ (
    none_of_three (is_false (is_empty value)) (at_most (len value) 500)
      (is_false (contains_char 0 value)))

abbrev pub IsPathMatch : PathMatch → Type 0
IsPathMatch (prefix path) = IsRoutePath path
IsPathMatch (exact path) = IsRoutePath path
IsPathMatch (template path) = IsRoutePath path
IsPathMatch (regex pattern) = IsPiece pattern

pub path_match_iff : (m : PathMatch) → (validate_path_match m ≡ ok tt) ↔ IsPathMatch m
unfolding validate_path_match
path_match_iff (prefix path) = path_iff "route prefix" path
path_match_iff (exact path) = path_iff "route path" path
path_match_iff (template path) = path_iff "route template" path
path_match_iff (regex pattern) = regex_iff "route regex" pattern

abbrev pub IsValueMatch : ValueMatch → Type 0
IsValueMatch (present b) = Unit
IsValueMatch (exact_value v) = IsPiece v
IsValueMatch (prefix_value v) = IsPiece v
IsValueMatch (suffix_value v) = IsPiece v
IsValueMatch (contains_value v) = IsPiece v
IsValueMatch (regex_value v) = IsPiece v

validate_value_iff :
    (value_label regex_label : String) (m : ValueMatch)
    → (validate_value value_label regex_label m ≡ ok tt) ↔ IsValueMatch m
unfolding validate_value
validate_value_iff value_label regex_label (present b) = (λ h. tt, λ h. refl)
validate_value_iff value_label regex_label (exact_value v) = value_iff value_label v
validate_value_iff value_label regex_label (prefix_value v) = value_iff value_label v
validate_value_iff value_label regex_label (suffix_value v) = value_iff value_label v
validate_value_iff value_label regex_label (contains_value v) = value_iff value_label v
validate_value_iff value_label regex_label (regex_value v) = regex_iff regex_label v

abbrev pub IsHeaderMatch : HeaderMatch → Type 0
IsHeaderMatch h = IsToken 128 h.name × IsValueMatch h.matcher

pub header_match_iff : (h : HeaderMatch) → (validate_header_match h ≡ ok tt) ↔ IsHeaderMatch h
unfolding validate_header_match
header_match_iff h =
    both (IsToken-iff "header matcher name" h.name)
      (validate_value_iff "header matcher value" "header matcher regex" h.matcher)

abbrev pub IsQueryMatch : QueryParameterMatch → Type 0
IsQueryMatch q = IsToken 128 q.name × IsValueMatch q.matcher

pub IsQueryMatch-iff : (q : QueryParameterMatch) → (validate_query_match q ≡ ok tt) ↔ IsQueryMatch q
unfolding validate_query_match
IsQueryMatch-iff q =
    both (IsToken-iff "query matcher name" q.name)
      (validate_value_iff "query matcher value" "query matcher regex" q.matcher)

abbrev pub IsRateLimitAction : RateLimitAction → Type 0
IsRateLimitAction (request_headers header_name descriptor_key skip) =
    IsToken 128 header_name × IsToken 128 descriptor_key
IsRateLimitAction (generic_key descriptor_value descriptor_key) =
    IsPiece descriptor_value × Given descriptor_key (λ key. IsToken 128 key)

rate_limit_action_iff :
    (a : RateLimitAction) → (validate_rate_limit_action a ≡ ok tt) ↔ IsRateLimitAction a
unfolding validate_rate_limit_action
rate_limit_action_iff (request_headers header_name descriptor_key skip) =
    both (IsToken-iff "rate_limits.request_headers.header_name" header_name)
      (IsToken-iff "rate_limits.request_headers.descriptor_key" descriptor_key)
rate_limit_action_iff (generic_key descriptor_value descriptor_key) =
    both (value_iff "rate_limits.generic_key.descriptor_value" descriptor_value)
      (if_present descriptor_key (λ key. IsToken-iff "rate_limits.generic_key.descriptor_key" key))

abbrev pub IsRateLimit : RateLimitDefinition → Type 0
IsRateLimit limit =
    Given limit.stage (λ stage. stage ≤ 10)
    & Given limit.disable_key (λ key. IsToken 128 key)
    & ((is_empty limit.actions ≡ false) × (length limit.actions ≤ 16))
    & All IsRateLimitAction limit.actions

IsRateLimit-iff : (l : RateLimitDefinition) → (validate_rate_limit l ≡ ok tt) ↔ IsRateLimit l
unfolding validate_rate_limit
IsRateLimit-iff l = both (if_present l.stage (λ stage. passes _ _ (at_most stage 10))) (
    both (if_present l.disable_key (λ key. IsToken-iff "rate_limits.disable_key" key)) (
      both (passes _ _ (neither (is_false (is_empty l.actions)) (at_most (length l.actions) 16)))
        (each l.actions rate_limit_action_iff)))

abbrev pub AreRateLimits : List RateLimitDefinition → Type 0
AreRateLimits limits = (length limits ≤ 32) × All IsRateLimit limits

pub rate_limits_iff :
    (limits : List RateLimitDefinition)
    → (validate_rate_limits limits ≡ ok tt) ↔ AreRateLimits limits
unfolding validate_rate_limits
rate_limits_iff limits =
    both (passes _ _ (at_most (length limits) 32)) (each limits IsRateLimit-iff)

-- A rewrite is a path, and goes with its own kind of match; never both at once.
abbrev pub AreRewrites : Option Text → Option Text → Bool → Type 0
AreRewrites (some p) (some t) from_template = ⊥
AreRewrites (some p) none from_template = (from_template ≡ false) × IsRoutePath p
AreRewrites none (some t) from_template = (from_template ≡ true) × IsRoutePath t
AreRewrites none none from_template = Unit

pub rewrites_iff :
    (p t : Option Text) (from_template : Bool)
    → (check_rewrites p t from_template ≡ ok tt) ↔ AreRewrites p t from_template
unfolding check_rewrites
rewrites_iff (some p) (some t) b = (λ h. cc, λ h. absurd h)
rewrites_iff (some p) none b = both (passes _ _ (is_false b)) (path_iff "prefix_rewrite" p)
rewrites_iff none (some t) b = both (passes _ _ (holds b)) (path_iff "template_rewrite" t)
rewrites_iff none none b = (λ h. tt, λ h. refl)
