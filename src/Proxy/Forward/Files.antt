-- ===== src/Proxy/Forward/Files.antt =====
-- The temporary file of a proxied request (proxy.go, cache/tmp_file_response_writer.go).
use chproxy.Cache.TmpFile.{TmpFile, tmp_write, tmp_write_header, capture_headers}
use chproxy.Http.{Body}
use chproxy.Proxy.Writers.{
  Writers, rw_copy, rw_write_header, write_response, srw_respond_with, srw_set_status_code,
  add_headers, rw_respond_with,
}
use chproxy.Base.{
  Bool, Bool-cases, Text, [], arith, inl, inr, is_empty, refl, some, ℕ, ◌++◌, ◌∷◌, ◌≡◌,
}
use chproxy.Proxy.Retry.{
  Attempt, Flight, Ending, proxied, unreachable, context_done, canceled, deadline_exceeded,
  unreadable, no_node, unfinished, execute_with_retry, written_by, after_attempt,
}
use chproxy.Proxy.Retry.Kept.{execute_with_retry-keeps}
use chproxy.Proxy.Forward.{Course, end_request, proxy_request}

-- There is a file, and the file system answers as given.
abbrev pub HasFile : (flushes seeks : Bool) → Writers → Type 0
HasFile flushes seeks w =
    (t : TmpFile) × (w.tmp ≡ some t) × (t.flushes ≡ flushes) × (t.seeks ≡ seeks)

module _ (flushes seeks : Bool) where
  abbrev Kept : Writers → Type 0
  Kept w = HasFile flushes seeks w

  rw_copy-Kept : (payload : Text) (w : Writers) → Kept w → Kept (rw_copy payload w)
  unfolding rw_copy tmp_write capture_headers
  rw_copy-Kept payload w (t, e, f, s) = elim (Bool-cases (is_empty payload)) [
    | inl empty ↦ (t, rw (e, empty, rw_copy) e, f, s)
    | inr full ↦ (
      tmp_write w.stat.client.header payload t,
      rw (e, full, rw_copy) refl,
      ground arith,
      ground arith,
    )
  ]

  rw_write_header-Kept : (code : ℕ) (w : Writers) → Kept w → Kept (rw_write_header code w)
  unfolding rw_write_header tmp_write_header
  rw_write_header-Kept code w (t, e, f, s) =
      (tmp_write_header code t, rw (e, rw_write_header) refl, f, s)

  attempt-Kept :
      (a : Attempt) (w : Writers) → Kept w → Kept (written_by a w) × Kept (after_attempt a w)
  unfolding written_by after_attempt write_response srw_set_status_code
  attempt-Kept a w h =
      let w1 = record w { stat = add_headers a.headers w.stat } in
      let k =
        rw_copy-Kept a.body (rw_write_header a.status w1) (rw_write_header-Kept a.status w1 h) in
      (k, k)

  respond-Kept :
      (error : Text) (status : ℕ) (w : Writers) → Kept w → Kept (srw_respond_with error status w)
  unfolding srw_respond_with
  respond-Kept error status w h = h

  -- The request keeps its temporary file, whatever is written into it.
  pub proxy_request-HasFile :
      (c : Course) (body : Body) (f : Flight)
      → HasFile flushes seeks f.writers
      → HasFile flushes seeks (proxy_request c body f).0.writers
  unfolding proxy_request end_request srw_set_status_code rw_respond_with
  proxy_request-HasFile c body f h =
      ended (execute_with_retry f.scope.cluster.retry_number body c.attempts f).0
        (execute_with_retry f.scope.cluster.retry_number body c.attempts f).1
        (execute_with_retry-keeps Kept attempt-Kept respond-Kept f.scope.cluster.retry_number body
          c.attempts f h)
    where
      ended : (g : Flight) (e : Ending) → Kept g.writers → Kept (end_request c (g, e)).0.writers
      ended g (proxied code) k = k
      ended g (unreachable code) k = k
      ended g (context_done canceled) k = k
      ended g (context_done deadline_exceeded) k =
          rw_copy-Kept (c.timeout_error ++ (b'\n' ∷ [])) (rw_write_header 504 g.writers)
            (rw_write_header-Kept 504 g.writers k)
      ended g unreadable k = k
      ended g no_node k = k
      ended g unfinished k = k
