-- ===== src/Gateway/HeaderRules.antt =====
-- What the validation of the header-mutation, health-check and compressor filters accepts.
use Prim.Native.String.{String}
use flowplane.Base.{
  ◌≤◌, ◌≡◌, ◌↔◌, true, false, List, ◌++◌, Text, chars, length, is_empty, All, All-map, All-append,
  len, starts_with,
}
use flowplane.Domain.Error.{ok}
use flowplane.Domain.Checks.{Given, ◌&◌, both, passes, each, neither, holds, is_false, at_most}
use flowplane.Gateway.Upstream.{InRange}
use flowplane.Gateway.Filters.{
  HeaderValue, HeaderMutationConfig, HealthCheckConfig, CompressorConfig,
}
use flowplane.Gateway.Filters.Validate.{
  validate_header_value, validate_header_values, validate_header_names, check_key,
  validate_header_mutation, validate_health_check_filter, validate_compressor,
}
use flowplane.Gateway.FilterRules.{
  IsPrintable, IsPrintable-iff, ArePrintable, printables_iff, outside_iff,
}

abbrev pub IsHeader : HeaderValue → Type 0
IsHeader hv = IsPrintable 256 hv.key & IsPrintable 4_096 hv.value

validate_header_value_iff : (hv : HeaderValue) → (validate_header_value hv ≡ ok tt) ↔ IsHeader hv
unfolding validate_header_value
validate_header_value_iff hv =
    both (IsPrintable-iff "header_mutation: header key" hv.key 256)
      (IsPrintable-iff "header_mutation: header value" hv.value 4_096)

abbrev pub AreHeaders : List HeaderValue → Type 0
AreHeaders values = (length values ≤ 128) & All IsHeader values

headers_iff :
    (label : String) (values : List HeaderValue)
    → (validate_header_values label values ≡ ok tt) ↔ AreHeaders values
unfolding validate_header_values
headers_iff label values =
    both (passes _ _ (at_most (length values) 128)) (each values validate_header_value_iff)

names_iff :
    (label : String) (values : List Text)
    → (validate_header_names label values ≡ ok tt) ↔ ArePrintable 128 256 values
unfolding validate_header_names
names_iff label values = printables_iff label values 128 256

check_key_iff : (hv : HeaderValue) → (check_key hv ≡ ok tt) ↔ (is_empty hv.key ≡ false)
unfolding check_key
check_key_iff hv = passes _ _ (is_false (is_empty hv.key))

keyed : (xs : List HeaderValue) → All IsHeader xs → All (λ hv. is_empty hv.key ≡ false) xs
keyed xs h = All-map xs (λ hv (key, value). let (present, _) = key in present) h

abbrev pub IsHeaderMutation : HeaderMutationConfig → Type 0
IsHeaderMutation c =
    AreHeaders c.request_headers_to_add
    & ArePrintable 128 256 c.request_headers_to_remove
    & AreHeaders c.response_headers_to_add
    & ArePrintable 128 256 c.response_headers_to_remove

-- The last loop of the validation rejects nothing that the checks before it accept.
pub validate_header_mutation_iff :
    (c : HeaderMutationConfig) → (validate_header_mutation c ≡ ok tt) ↔ IsHeaderMutation c
unfolding validate_header_mutation
validate_header_mutation_iff c =
    let added = c.request_headers_to_add ++ c.response_headers_to_add in
    let (out, back) =
      both (headers_iff "header_mutation: request_headers_to_add" c.request_headers_to_add) (
        both (names_iff "header_mutation: request_headers_to_remove" c.request_headers_to_remove) (
          both (headers_iff "header_mutation: response_headers_to_add" c.response_headers_to_add) (
            both
              (names_iff "header_mutation: response_headers_to_remove" c.response_headers_to_remove)
              (each added check_key_iff)))) in
    (
      λ e. let (a, (b, (d, (f, _)))) = out e in (a, (b, (d, f))),
      λ ((n, a), (b, ((m, d), f))). back (
        (n, a),
        (
          b,
          (
            (m, d),
            (
              f,
              All-append (λ hv. is_empty hv.key ≡ false) c.request_headers_to_add
                  c.response_headers_to_add (keyed c.request_headers_to_add a)
                  (keyed c.response_headers_to_add d),
            ),
          ),
        ),
      ),
    )

abbrev pub IsHealthFilter : HealthCheckConfig → Type 0
IsHealthFilter c = (starts_with c.endpoint_path (chars "/") ≡ true) × (len c.endpoint_path ≤ 500)

pub validate_health_check_filter_iff :
    (c : HealthCheckConfig) → (validate_health_check_filter c ≡ ok tt) ↔ IsHealthFilter c
unfolding validate_health_check_filter
validate_health_check_filter_iff c =
    passes _ _ (
      neither (holds (starts_with c.endpoint_path (chars "/"))) (at_most (len c.endpoint_path) 500))

abbrev pub IsCompressor : CompressorConfig → Type 0
IsCompressor c =
    Given c.memory_level (λ n. InRange 1 9 n) × Given c.window_bits (λ n. InRange 9 15 n)

pub validate_compressor_iff :
    (c : CompressorConfig) → (validate_compressor c ≡ ok tt) ↔ IsCompressor c
unfolding validate_compressor
validate_compressor_iff c =
    both (passes _ _ (outside_iff 1 9 c.memory_level)) (passes _ _ (outside_iff 9 15 c.window_bits))
