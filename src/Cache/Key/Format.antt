-- ===== src/Cache/Key/Format.antt =====
-- `String` of cache/key.go: the text that is hashed, and the name of a key in the caches. `quote` is
-- the verb `%q` of the package `fmt`, `sha256` and `hex` are the functions of the packages of crypto
-- and encoding.
pub mod Distinct
use chproxy.Base.{List, Text, [], bytes, itoa, take, ℕ, ◌++◌, ◌∷◌}
use chproxy.Cache.Key.{Key}

-- A part of the format: a text by `%q` or a number by `%d`, behind its label.
pub data Field : Type 0 where
  quoted : Text → Field
  decimal : ℕ → Field

unfoldable pub fields : Key → List Field
fields k =
    decimal k.version
    ∷ quoted k.query
    ∷ quoted k.accept_encoding
    ∷ quoted k.default_format
    ∷ quoted k.database
    ∷ quoted k.compress
    ∷ quoted k.enable_http_compression
    ∷ quoted k.namespace
    ∷ quoted k.max_result_rows
    ∷ quoted k.extremes
    ∷ quoted k.result_overflow_mode
    ∷ decimal k.user_params_hash
    ∷ decimal k.query_params_hash
    ∷ decimal k.user_credential_hash
    ∷ []

abbrev pub labels : List Text
labels =
    bytes "Query="
    ∷ bytes "AcceptEncoding="
    ∷ bytes "DefaultFormat="
    ∷ bytes "Database="
    ∷ bytes "Compress="
    ∷ bytes "EnableHTTPCompression="
    ∷ bytes "Namespace="
    ∷ bytes "MaxResultRows="
    ∷ bytes "Extremes="
    ∷ bytes "ResultOverflowMode="
    ∷ bytes "UserParams="
    ∷ bytes "QueryParams="
    ∷ bytes "UserCredentialHash="
    ∷ []

module _ (quote : Text → Text) where
  unfoldable pub show_field : Field → Text
  show_field (quoted t) = quote t
  show_field (decimal n) = itoa n

  -- The fields behind the first one, each with a semicolon, a space and its label.
  unfoldable pub show_fields : List Text → List Field → Text
  unfolding show_field
  show_fields (l ∷ ls) (f ∷ fs) = b';' ∷ (b' ' ∷ (l ++ (show_field f ++ show_fields ls fs)))
  show_fields ls fs = []

  unfoldable pub key_text : Key → Text
  unfolding fields show_fields
  key_text k = elim (fields k) [
    | [] ↦ []
    | version ∷ rest ↦ b'V' ∷ (show_field version ++ show_fields labels rest)
  ]

  -- The first 16 bytes of the hash.
  unfoldable pub key_string : (sha256 hex : Text → Text) → Key → Text
  unfolding key_text
  key_string sha256 hex k = hex (take 16 (sha256 (key_text k)))
