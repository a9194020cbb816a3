-- ===== src/Gateway/Matchers.antt =====
-- The matchers of a route: paths, headers, query parameters
-- (crates/fp-domain/src/gateway/route_config.rs).
use Prim.Native.String.{String}
use flowplane.Base.{
  Bool, ◌||◌, not, Text, chars, any, is_empty, ltb, nat_eq, is_control, is_whitespace, len,
  starts_with, contains_text, contains_char,
}
use flowplane.Domain.Error.{DomainResult, ok, validation, reject_if, ◌>>◌}

pub data PathMatch : Type 0 where
  prefix exact template regex : Text → PathMatch

-- `HeaderValueMatch` and `QueryValueMatch`, which have the same variants.
pub data ValueMatch : Type 0 where
  present : Bool → ValueMatch
  exact_value prefix_value suffix_value contains_value regex_value : Text → ValueMatch

pub record HeaderMatch : Type 0 where
  pub name : Text
  pub invert_match : Bool
  pub matcher : ValueMatch

pub record QueryParameterMatch : Type 0 where
  pub name : Text
  pub matcher : ValueMatch

unfoldable pub valid_token : String → Text → DomainResult (Unit {0})
valid_token label value =
    reject_if
      (is_empty value
        || ltb 128 (len value)
        || any (λ c. is_control c || is_whitespace c || nat_eq c 0) value)
      (validation "{label} must be 1-128 non-whitespace, non-control characters")

unfoldable pub valid_path : String → Text → DomainResult (Unit {0})
valid_path label path =
    reject_if
      (not (starts_with path (chars "/"))
        || contains_text path (chars "..")
        || ltb 500 (len path)
        || contains_char 0 path)
      (validation "{label} must start with '/', contain no '..', and be <= 500 chars")

unfoldable pub valid_match_value : String → Text → DomainResult (Unit {0})
valid_match_value label value =
    reject_if (is_empty value || ltb 500 (len value) || contains_char 0 value)
      (validation "{label} must be 1-500 chars and contain no NUL")

unfoldable pub valid_regex : String → Text → DomainResult (Unit {0})
valid_regex label pattern =
    reject_if (is_empty pattern || ltb 500 (len pattern) || contains_char 0 pattern)
      (validation "{label} must be 1-500 chars and contain no NUL")

-- The match on the path matcher in the loop over the routes.
unfoldable pub validate_path_match : PathMatch → DomainResult (Unit {0})
unfolding valid_path valid_regex
validate_path_match (prefix path) = valid_path "route prefix" path
validate_path_match (exact path) = valid_path "route path" path
validate_path_match (template path) = valid_path "route template" path
validate_path_match (regex pattern) = valid_regex "route regex" pattern

-- The match on the value of a matcher, under the label of its kind.
unfoldable pub validate_value : String → String → ValueMatch → DomainResult (Unit {0})
unfolding valid_match_value valid_regex
validate_value value_label regex_label (present b) = ok tt
validate_value value_label regex_label (exact_value v) = valid_match_value value_label v
validate_value value_label regex_label (prefix_value v) = valid_match_value value_label v
validate_value value_label regex_label (suffix_value v) = valid_match_value value_label v
validate_value value_label regex_label (contains_value v) = valid_match_value value_label v
validate_value value_label regex_label (regex_value r) = valid_regex regex_label r

unfoldable pub validate_header_match : HeaderMatch → DomainResult (Unit {0})
unfolding valid_token validate_value
validate_header_match header = do
  valid_token "header matcher name" header.name
  validate_value "header matcher value" "header matcher regex" header.matcher

unfoldable pub validate_query_match : QueryParameterMatch → DomainResult (Unit {0})
unfolding valid_token validate_value
validate_query_match query = do
  valid_token "query matcher name" query.name
  validate_value "query matcher value" "query matcher regex" query.matcher
