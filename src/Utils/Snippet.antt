-- ===== src/Utils/Snippet.antt =====
-- `cachedReadCloser` of io.go, and `getQuerySnippet` and `getQuerySnippetFromBody` of utils.go. A body
-- is what the calls of its reader give; how a copy of it is cut into calls is a parameter `cut`. A
-- decompressor gives what it has decompressed, and whether all of it.
use chproxy.Base.{
  Bool, List, Option, Text, [], all, bytes, if◌then◌else◌, is_empty, leb, length, ltb, none, not,
  some, take, ◌&&◌, ◌++◌, ◌||◌, ◌∷◌,
}
pub mod Stable
use chproxy.Utils.Query.{Decompressor, get_decompressor}
use chproxy.Http.{Request, get_value}

pub record CachedReadCloser : Type 0 where
  pub rest : List Text  -- what the wrapped reader gives
  pub b : Text

-- The cached bytes behind a call of `Read` that gave `p`.
unfoldable pub cache_read : (p b : Text) → Text
cache_read p b =
    let all = b ++ p in
    if ltb (length b) 1024
    then if leb 1024 (length all) then take 1024 all ++ bytes "..." else all
    else b

unfoldable pub cache_reads : List Text → Text → Text
unfolding cache_read
cache_reads [] b = b
cache_reads (p ∷ ps) b = cache_reads ps (cache_read p b)

-- `io.Copy(io.Discard, crc)`: all calls.
unfoldable pub discard : CachedReadCloser → CachedReadCloser
unfolding cache_reads
discard crc = record { rest = []; b = cache_reads crc.rest crc.b }

-- The body of a request, `*cachedReadCloser` or another reader.
pub data BodyReader : Type 0 where
  nil_body : BodyReader
  plain_body : List Text → BodyReader
  cached_body : CachedReadCloser → BodyReader

abbrev pub as_cached : List Text → CachedReadCloser
as_cached ps = record { rest = ps; b = [] }

module _ (cut : Text → List Text) (decompress : Decompressor → Text → Text × Bool) where
  -- What is shown of the data of a body.
  unfoldable pub show_data : Option Decompressor → Text → Text
  show_data none data_bytes = data_bytes
  show_data (some u) data_bytes =
      let (b, ok) = decompress u data_bytes in if ok || not (is_empty b) then b else data_bytes

  -- The snippet, and the body that is put in the place of the one that was read.
  unfoldable pub get_query_snippet_from_body : Option Decompressor → BodyReader → Text × BodyReader
  unfolding discard show_data
  get_query_snippet_from_body u nil_body = ([], nil_body)
  get_query_snippet_from_body u (plain_body ps) =
      let data_bytes = (discard (as_cached ps)).b in
      (show_data u data_bytes, plain_body (cut data_bytes))
  get_query_snippet_from_body u (cached_body crc) =
      let data_bytes = (discard crc).b in (show_data u data_bytes, plain_body (cut data_bytes))

  unfoldable pub get_query_snippet : Request → BodyReader → Text × BodyReader
  unfolding get_query_snippet_from_body
  get_query_snippet req r =
      let query = get_value (bytes "query") req.query in
      let (body, r') = get_query_snippet_from_body (get_decompressor req) r in
      (
        if not (is_empty query) && not (is_empty body)
            then query ++ (b'\n' ∷ body)
            else query ++ body,
        r',
      )
