-- ===== src/Proxy/Writers.antt =====
-- What a response is written to: the client's connection of net/http, `statResponseWriter` and
-- `RespondWithData` of io.go, `respondWith` of utils.go, and the temporary file of
-- cache/tmp_file_response_writer.go. Metrics are left out; the text of an error is an argument.
use chproxy.Cache.TmpFile.{TmpFile, tmp_status_code, tmp_write_header, tmp_write}
use chproxy.Cache.Codec.{itoa_int, ContentMetadata}
use chproxy.Base.{
  Bool, Dict, List, Option, Text, [], bytes, delete, if◌then◌else◌, is_empty, is_positive, itoa,
  magnitude, none, not, some, true, ℕ, ℤ, ◌++◌, ◌/◌, ◌==◌, ◌^◌, ◌∷◌,
}

-- The writer of net/http: headers, what was sent with the first status, and the body. The handler's
-- end sends the status 200 if none was sent. Writing to a broken connection fails.
pub record Client : Type 0 where
  pub header : Dict Text
  pub sent : Option (ℕ × Dict Text)
  pub body : Text
  pub broken : Bool

abbrev pub send_status : ℕ → Client → Client
send_status code c = elim c.sent [ none ↦ record c { sent = some (code, c.header) } | some s ↦ c ]

abbrev pub send_body : Text → Client → Client
send_body b c =
    let c' = send_status 200 c in if c'.broken then c' else record c' { body = c'.body ++ b }

abbrev pub status_sent : Client → ℕ
status_sent c = elim c.sent [ none ↦ 200 | some (code, _) ↦ code ]

pub record StatWriter : Type 0 where
  pub client : Client
  pub status_code : ℕ
  pub wrote_header : Bool

unfoldable pub stat_status_code : StatWriter → ℕ
stat_status_code w = if w.status_code == 0 then 200 else w.status_code

unfoldable pub stat_set_status_code : ℕ → StatWriter → StatWriter
stat_set_status_code code w = record w { status_code = code }

unfoldable pub stat_write_header : ℕ → StatWriter → StatWriter
stat_write_header code w = record w { status_code = code }

-- The writer and whether the write succeeded.
unfoldable pub stat_write : Text → StatWriter → StatWriter × Bool
stat_write b w =
    let code = if w.status_code == 0 then 200 else w.status_code in
    let c = if w.wrote_header then w.client else send_status code w.client in
    (record w { client = send_body b c; status_code = code; wrote_header = true }, not c.broken)

-- `Set` and `Add` of `http.Header`. A key stands once for each of its values.
abbrev pub header_set : Text → Text → Dict Text → Dict Text
header_set k v h = (k, v) ∷ delete k h

abbrev pub header_add : Text → Text → Dict Text → Dict Text
header_add k v h = h ++ ((k, v) ∷ [])

unfoldable pub set_header : Text → Text → StatWriter → StatWriter
set_header k v w = record w { client = record w.client { header = header_set k v w.client.header } }

unfoldable pub add_header : Text → Text → StatWriter → StatWriter
add_header k v w = record w { client = record w.client { header = header_add k v w.client.header } }

-- `io.Copy` into the writer: nothing is written of an empty reader.
unfoldable pub copy_to : Text → StatWriter → StatWriter × Bool
unfolding stat_write
copy_to payload w = if is_empty payload then (w, true) else stat_write payload w

-- `respondWith`.
unfoldable pub respond_with : (error : Text) (status : ℕ) → StatWriter → StatWriter
unfolding stat_write stat_write_header
respond_with error status w = (stat_write (error ++ (b'\n' ∷ [])) (stat_write_header status w)).0

abbrev pub set_nonempty_header : Text → Text → StatWriter → StatWriter
unfolding set_header
set_nonempty_header k v w = if is_empty v then w else set_header k v w

abbrev pub set_max_age : ℤ → StatWriter → StatWriter
unfolding set_header itoa
set_max_age ttl w =
    if is_positive ttl
    then set_header (bytes "Cache-Control") (bytes "max-age=" ++ itoa (magnitude ttl / 10 ^ 9)) w
    else w

-- `RespondWithData`: the writer, and whether the data was sent.
unfoldable pub respond_with_data :
    (payload : Text)
    → ContentMetadata
    → (ttl : ℤ) → (cache_hit : Text) → (status_code : ℕ) → StatWriter
    → StatWriter × Bool
unfolding set_header stat_write_header copy_to itoa set_nonempty_header set_max_age
respond_with_data payload metadata ttl cache_hit status_code w =
    let w1 = set_nonempty_header (bytes "Content-Type") metadata.type w in
    let w2 = set_nonempty_header (bytes "Content-Encoding") metadata.encoding w1 in
    let w3 = set_header (bytes "Content-Length") (itoa_int metadata.content_length) w2 in
    let w4 = set_header (bytes "X-Cache") cache_hit (set_max_age ttl w3) in
    copy_to payload (stat_write_header status_code w4)

-- The two writers of `executeWithRetry`: `srw`, and `rw`, which is the temporary file where there is
-- one and `srw` itself otherwise.
pub record Writers : Type 0 where
  pub stat : StatWriter
  pub tmp : Option TmpFile

unfoldable pub rw_status_code : Writers → ℕ
unfolding stat_status_code
rw_status_code w = elim w.tmp [ none ↦ stat_status_code w.stat | some t ↦ tmp_status_code t ]

unfoldable pub rw_write_header : ℕ → Writers → Writers
unfolding stat_write_header
rw_write_header code w = elim w.tmp [
  | none ↦ record w { stat = stat_write_header code w.stat }
  | some t ↦ record w { tmp = some (tmp_write_header code t) }
]

-- `io.Copy` into `rw`.
unfoldable pub rw_copy : Text → Writers → Writers
unfolding copy_to
rw_copy payload w = elim w.tmp [
  | none ↦ record w { stat = (copy_to payload w.stat).0 }
  | some t ↦
      if is_empty payload
      then w
      else record w { tmp = some (tmp_write w.stat.client.header payload t) }
]

abbrev pub add_headers : List (Text × Text) → StatWriter → StatWriter
unfolding add_header
add_headers [] w = w
add_headers ((k, v) ∷ kvs) w = add_headers kvs (add_header k v w)

-- What `httputil.ReverseProxy` writes of a response: its headers, which it adds to those that are
-- there, its status and its body.
unfoldable pub write_response :
    (headers : List (Text × Text)) (status : ℕ) (body : Text) → Writers → Writers
unfolding rw_write_header rw_copy add_headers
write_response headers status body w =
    rw_copy body (rw_write_header status (record w { stat = add_headers headers w.stat }))

unfoldable pub srw_set_status_code : ℕ → Writers → Writers
unfolding stat_set_status_code
srw_set_status_code code w = record w { stat = stat_set_status_code code w.stat }

-- `respondWith` on `srw` and on `rw`.
unfoldable pub srw_respond_with : (error : Text) (status : ℕ) → Writers → Writers
unfolding respond_with
srw_respond_with error status w = record w { stat = respond_with error status w.stat }

unfoldable pub rw_respond_with : (error : Text) (status : ℕ) → Writers → Writers
unfolding rw_write_header rw_copy
rw_respond_with error status w = rw_copy (error ++ (b'\n' ∷ [])) (rw_write_header status w)
