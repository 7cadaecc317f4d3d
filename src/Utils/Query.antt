-- ===== src/Utils/Query.antt =====
-- utils.go: `getFullQuery`, `getFullQueryFromBody` and `getDecompressor`. Decompression with gzip
-- and with ClickHouse's own format is a parameter each; `none` is an error.
use chproxy.Base.{
  Option, Text, [], bytes, if◌then◌else◌, is_empty, none, not, some, text_eq, ◌&&◌, ◌++◌, ◌>>=◌,
  ◌∷◌,
}
use chproxy.Http.{Request, get_value, get_header, no_body, broken_body, content}

pub data Decompressor : Type 0 where
  gzip_decompressor ch_decompressor : Decompressor

pub get_decompressor : Request → Option Decompressor
get_decompressor req =
    if text_eq (get_header (bytes "Content-Encoding") req.headers) (bytes "gzip")
    then some gzip_decompressor
    else if text_eq (get_value (bytes "decompress") req.query) (bytes "1")
    then some ch_decompressor
    else none

module _ (decompress : Decompressor → Text → Option Text) where
  abbrev decompress_with : Option Decompressor → Text → Option Text
  decompress_with none t = some t
  decompress_with (some d) t = decompress d t

  get_full_query_from_body : Request → Option Text
  unfolding get_decompressor
  get_full_query_from_body req = elim req.body [
    | no_body ↦ some []
    | broken_body ↦ none
    | content t ↦ decompress_with (get_decompressor req) t
  ]

  -- `none` is an error of reading or of decompressing.
  unfoldable pub get_full_query : Request → Option Text
  unfolding get_full_query_from_body
  get_full_query req =
      let result = get_value (bytes "query") req.query in
      do
        body ← get_full_query_from_body req
        some (
            if not (is_empty result) && not (is_empty body)
            then result ++ (b'\n' ∷ body)
            else result ++ body)
