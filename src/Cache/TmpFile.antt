-- ===== src/Cache/TmpFile.antt =====
-- cache/tmp_file_response_writer.go: the response that is kept in a temporary file. The headers go
-- to the writer that it wraps, which is handed in where they are read. `flushes` and `seeks` are
-- what the file system answers to flushing the buffer and to seeking.
use chproxy.Http.{get_header}
use chproxy.Base.{
  Bool, Dict, Option, Text, [], bytes, drop, false, if◌then◌else◌, length, none, some, true, ℕ,
  ◌++◌, ◌==◌, ◌>>=◌,
}

pub record TmpFile : Type 0 where
  pub content_type : Text
  pub content_encoding : Text
  pub headers_captured : Bool
  pub status_code : ℕ
  pub file : Text
  pub offset : ℕ
  pub flushes : Bool
  pub seeks : Bool

unfoldable pub new_tmp_file : (flushes seeks : Bool) → TmpFile
new_tmp_file flushes seeks = record {
  content_type = [];
  content_encoding = [];
  headers_captured = false;
  status_code = 0;
  file = [];
  offset = 0;
  flushes = flushes;
  seeks = seeks;
}

-- The file behind the flushed buffer; `none` is an error.
unfoldable pub get_file : TmpFile → Option Text
get_file t = if t.flushes then some t.file else none

unfoldable pub reset_file_offset : TmpFile → Option TmpFile
unfolding get_file
reset_file_offset t = do f ← get_file t; if t.seeks then some (record t { offset = 0 }) else none

unfoldable pub capture_headers : Dict Text → TmpFile → TmpFile
unfolding get_header
capture_headers header t = if t.headers_captured then t else record t {
  headers_captured = true;
  content_encoding = get_header (bytes "Content-Encoding") header;
  content_type = get_header (bytes "Content-Type") header;
}

-- `contentLength` is never set, so the length is where the file ends.
unfoldable pub get_captured_content_length : TmpFile → Option (TmpFile × ℕ)
unfolding get_file reset_file_offset
get_captured_content_length t = do
  f ← get_file t
  t' ← (if t.seeks then reset_file_offset t else none)
  some (t', length f)

unfoldable pub tmp_write_header : ℕ → TmpFile → TmpFile
tmp_write_header code t = record t { status_code = code }

unfoldable pub tmp_status_code : TmpFile → ℕ
tmp_status_code t = if t.status_code == 0 then 200 else t.status_code

-- A write goes to the end of what was written; `header` are the response's headers.
unfoldable pub tmp_write : Dict Text → Text → TmpFile → TmpFile
unfolding capture_headers
tmp_write header b t = let t' = capture_headers header t in record t' { file = t'.file ++ b }

-- `Reader`, read to the end.
unfoldable pub read_all : TmpFile → Text × TmpFile
read_all t = (drop t.offset t.file, record t { offset = length t.file })
