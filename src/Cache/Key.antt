-- ===== src/Cache/Key.antt =====
-- The cache key (cache/key.go, and `newCacheKey`, `calcQueryParamsHash` of proxy.go, `sortHeader` of
-- utils.go). A key's text is in Cache/Key/Format; `quote` is `%q` of the package `fmt`.
pub mod Format
use chproxy.Utils.Comments.Skips.{skip_leading_comments_idem}
use chproxy.Utils.Comments.{skip_leading_comments}
use chproxy.Scope.Types.{ParamsRegistry, AsyncCache, Scope}
use chproxy.Utils.Hashes.{sort_strings, calc_map_hash, calc_credential_hash}
use chproxy.Http.{get_value, Values, get_header, Request}
use chproxy.Base.{
  Dict, List, Option, Text, [], ap, append_assoc, bytes, fnv_offset, fnv_write, has_prefix,
  if◌then◌else◌, map, none, refl, some, ℕ, ◌++◌, ◌==◌, ◌∷◌, ◌≡◌,
}

abbrev pub version : ℕ
version = 5

pub record Key : Type 0 where
  pub query : Text
  pub accept_encoding : Text
  pub default_format : Text
  pub database : Text
  pub compress : Text
  pub enable_http_compression : Text
  pub namespace : Text
  pub max_result_rows : Text
  pub extremes : Text
  pub result_overflow_mode : Text
  pub user_params_hash : ℕ  -- uint32
  pub version : ℕ
  pub query_params_hash : ℕ  -- uint32
  pub user_credential_hash : ℕ  -- uint32

new_key :
    (query : Text) (origin_params : Values) (accept_encoding : Text)
    (user_params_hash query_params_hash user_credential_hash : ℕ)
    → Key
unfolding get_value
new_key query origin_params accept_encoding user_params_hash query_params_hash credential_hash =
    record {
      query = query;
      accept_encoding = accept_encoding;
      default_format = get_value (bytes "default_format") origin_params;
      database = get_value (bytes "database") origin_params;
      compress = get_value (bytes "compress") origin_params;
      enable_http_compression = get_value (bytes "enable_http_compression") origin_params;
      namespace = get_value (bytes "cache_namespace") origin_params;
      max_result_rows = get_value (bytes "max_result_rows") origin_params;
      extremes = get_value (bytes "extremes") origin_params;
      result_overflow_mode = get_value (bytes "result_overflow_mode") origin_params;
      user_params_hash = user_params_hash;
      version = version;
      query_params_hash = query_params_hash;
      user_credential_hash = credential_hash;
    }

-- The parts of a list of bytes between the commas (`strings.Split`).
split_commas : (part : Text) → Text → List Text
split_commas part [] = part ∷ []
split_commas part (c ∷ t) =
    let longer = split_commas (part ++ (c ∷ [])) t in
    let next = split_commas [] t in if c == b',' then part ∷ next else longer

join_commas : List Text → Text
join_commas [] = []
join_commas (t ∷ []) = t
join_commas (t ∷ u ∷ ts) = t ++ (b',' ∷ join_commas (u ∷ ts))

-- `trim` is `strings.TrimSpace`.
sort_header : (trim : Text → Text) → Text → Text
unfolding split_commas sort_strings join_commas
sort_header trim header = join_commas (sort_strings (map trim (split_commas [] header)))

keep_query_params : List (Text × List Text) → Values → Dict Text
unfolding get_value has_prefix
keep_query_params [] params = []
keep_query_params ((k, vs) ∷ rest) params =
    let kept = keep_query_params rest params in
    if has_prefix k (bytes "param_") then (k, get_value k params) ∷ kept else kept

calc_query_params_hash : Values → ℕ
unfolding keep_query_params calc_map_hash
calc_query_params_hash params = calc_map_hash (keep_query_params params params)

abbrev pub user_params_key : Option ParamsRegistry → ℕ
user_params_key none = 0
user_params_key (some p) = p.key

-- The user has a cache where the code comes here.
pub new_cache_key :
    (trim : Text → Text) → AsyncCache → Scope → (orig_params : Values) → (q : Text) → Request → Key
unfolding new_key calc_query_params_hash calc_credential_hash sort_header get_header
new_cache_key trim cache s orig_params q req =
    let credentials =
      if cache.shared_with_all_users
      then 0
      else calc_credential_hash s.cluster_user.name s.cluster_user.password in
    new_key (skip_leading_comments q) orig_params
      (sort_header trim (get_header (bytes "Accept-Encoding") req.headers))
      (user_params_key s.user.params) (calc_query_params_hash orig_params) credentials

-- The hash of the credentials is one of their concatenation: two cluster users whose name and
-- password together are the same text have the same one, however it is split.
calc_credential_hash-collision :
    (a b c : Text) → calc_credential_hash (a ++ b) c ≡ calc_credential_hash a (b ++ c)
unfolding calc_credential_hash
calc_credential_hash-collision a b c = ap (fnv_write fnv_offset) (append_assoc a b c)

-- Two queries that differ only in their leading comments have the same key.
new_cache_key-comments :
    (trim : Text → Text) (cache : AsyncCache) (s : Scope) (params : Values) (q : Text)
    (req : Request)
    → new_cache_key trim cache s params (skip_leading_comments q) req
      ≡ new_cache_key trim cache s params q req
unfolding new_cache_key
new_cache_key-comments trim cache s params q req = rw (skip_leading_comments_idem q) refl
