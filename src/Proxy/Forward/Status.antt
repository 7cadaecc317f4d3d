-- ===== src/Proxy/Forward/Status.antt =====
-- The status that a client gets of a request that `proxyRequest` of proxy.go proxies to it directly.
use chproxy.Proxy.Retry.Ends.{execute_with_retry-proxied}
use chproxy.Proxy.Writers.{
  Writers, add_header, rw_copy, StatWriter, copy_to, add_headers, stat_write, rw_write_header,
  write_response, srw_respond_with, srw_set_status_code, stat_write_header, stat_set_status_code,
  respond_with, rw_respond_with, rw_status_code, status_sent, stat_status_code, Client,
}
use chproxy.Base.{
  Dict, List, Text, [], arith, false, is_empty, none, refl, some, subst, sym, ℕ, ◌++◌, ◌<◌, ◌==◌,
  ◌∙◌, ◌∷◌, ◌≡◌, ◌≢◌,
}
use chproxy.Proxy.Retry.{
  Attempt, Flight, Ending, proxied, unreachable, context_done, canceled, deadline_exceeded,
  unreadable, no_node, unfinished, execute_with_retry, written_by, code_of, after_attempt,
  bad_gateway,
}
use chproxy.Proxy.Forward.{Course, end_request, proxy_request}
use chproxy.Proxy.Retry.Kept.{execute_with_retry-first, First}
use chproxy.Http.{broken_body, Body}

-- The response goes to the client itself, which has got a status and headers.
record HasSent (status : ℕ) (header : Dict Text) (w : Writers) : Type 0 where
  direct : w.tmp ≡ none
  sent : w.stat.client.sent ≡ some (status, header)

add_headers-client :
    (hs : List (Text × Text)) (w : StatWriter)
    → let w' = add_headers hs w in
      (w'.client.sent ≡ w.client.sent)
      × (w'.wrote_header ≡ w.wrote_header)
      × (w'.client.body ≡ w.client.body)
unfolding add_header
add_headers-client [] w = (refl, refl, refl)
add_headers-client ((k, v) ∷ hs) w = add_headers-client hs (add_header k v w)

module _ (status : ℕ) (header : Dict Text) where
  copy-HasSent :
      (payload : Text) (w : Writers)
      → HasSent status header w
      → HasSent status header (rw_copy payload w)
  unfolding rw_copy copy_to stat_write
  copy-HasSent payload w h = ground (arith, h.direct, h.sent)

  header-HasSent :
      (code : ℕ) (w : Writers)
      → HasSent status header w
      → HasSent status header (rw_write_header code w)
  unfolding rw_write_header stat_write_header
  header-HasSent code w h = ground (arith, h.direct, h.sent)

  attempt-HasSent :
      (a : Attempt) (w : Writers)
      → HasSent status header w
      → HasSent status header (written_by a w) × HasSent status header (after_attempt a w)
  unfolding written_by after_attempt write_response srw_set_status_code stat_set_status_code
  attempt-HasSent a w h =
      let w1 = record w { stat = add_headers a.headers w.stat } in
      let h1 : HasSent status header w1 = record {
        direct = h.direct;
        sent = (add_headers-client a.headers w.stat).0 ∙ h.sent;
      } in
      let k = copy-HasSent a.body (rw_write_header a.status w1) (header-HasSent a.status w1 h1) in
      (k, record { direct = k.direct; sent = k.sent })

  respond-HasSent :
      (error : Text) (code : ℕ) (w : Writers)
      → HasSent status header w
      → HasSent status header (srw_respond_with error code w)
  unfolding srw_respond_with respond_with stat_write stat_write_header
  respond-HasSent error code w h = ground (arith, h.direct, h.sent)

  end-HasSent :
      (c : Course) (f : Flight) (e : Ending)
      → HasSent status header f.writers
      → HasSent status header (end_request c (f, e)).0.writers
  unfolding end_request srw_set_status_code stat_set_status_code rw_respond_with
  end-HasSent c f (proxied code) h = h
  end-HasSent c f (unreachable code) h = h
  end-HasSent c f (context_done canceled) h = record { direct = h.direct; sent = h.sent }
  end-HasSent c f (context_done deadline_exceeded) h =
      let k =
        copy-HasSent (c.timeout_error ++ (b'\n' ∷ [])) (rw_write_header 504 f.writers)
          (header-HasSent 504 f.writers h) in
      record { direct = k.direct; sent = k.sent }
  end-HasSent c f unreadable h = h
  end-HasSent c f no_node h = h
  end-HasSent c f unfinished h = h

-- Nothing was written to the client yet.
pub record IsUnwritten (w : Writers) : Type 0 where
  pub direct : w.tmp ≡ none
  pub unsent : w.stat.client.sent ≡ none
  pub unwritten : w.stat.wrote_header ≡ false

first-HasSent :
    (a : Attempt) (w : Writers)
    → IsUnwritten w
    → is_empty a.body ≡ false
    → 0 < a.status
    → let header = (add_headers a.headers w.stat).client.header in
      HasSent a.status header (written_by a w) × HasSent a.status header (after_attempt a w)
unfolding written_by after_attempt write_response srw_set_status_code stat_set_status_code rw_copy
    copy_to stat_write rw_write_header stat_write_header
first-HasSent a w new full pos_status =
    let c = add_headers-client a.headers w.stat in
    ground (arith, new.direct, new.unsent, new.unwritten, c.0, c.1)

-- Where a request whose body can be read is proxied to the client directly, and the response to the
-- very first attempt has a body, that response decides: the client gets its status and its headers,
-- whatever later attempts bring, and also if the query is killed or times out. That holds for a bad
-- gateway with a body, too, which is tried again.
pub proxy_request-status :
    (c : Course) (body : Body) (f : Flight) (a : Attempt) (attempts : List Attempt)
    → IsUnwritten f.writers
    → body ≢ broken_body
    → c.attempts ≡ a ∷ attempts
    → is_empty a.body ≡ false
    → 0 < a.status
    → (proxy_request c body f).0.writers.stat.client.sent
      ≡ some (a.status, (add_headers a.headers f.writers.stat).client.header)
unfolding proxy_request
proxy_request-status c body f a attempts new readable e full pos_status =
    let header = (add_headers a.headers f.writers.stat).client.header in
    let r = execute_with_retry f.scope.cluster.retry_number body c.attempts f in
    let first = first-HasSent a f.writers new full pos_status in
    let kept =
      execute_with_retry-first (HasSent a.status header) (attempt-HasSent a.status header)
        (respond-HasSent a.status header) f.scope.cluster.retry_number body c.attempts f readable
        (subst
          (λ attempts.
            First (HasSent a.status header) (attempt-HasSent a.status header)
              (respond-HasSent a.status header) attempts f.writers)
          (sym e) first) in
    (end-HasSent a.status header c r.0 r.1 kept).sent

bodiless :
    (a : Attempt) (w : Writers)
    → IsUnwritten w
    → a.body ≡ []
    → (a.status == bad_gateway) ≡ false
    → ((code_of a w == bad_gateway) ≡ false)
      × ((after_attempt a w).stat.client.sent ≡ none)
      × ((after_attempt a w).stat.client.body ≡ w.stat.client.body)
unfolding code_of written_by after_attempt write_response srw_set_status_code stat_set_status_code
    rw_copy copy_to rw_write_header stat_write_header rw_status_code stat_status_code
bodiless a w new empty other =
    let c = add_headers-client a.headers w.stat in
    ground (arith, new.direct, new.unsent, empty, c.0, c.2)

status_unsent : (c : Client) → c.sent ≡ none → status_sent c ≡ 200
status_unsent c e = ground (arith, e)

-- A response without a body to the first attempt, other than a bad gateway, is lost if the context
-- has no error then and the request's body could be read: whatever its status, nothing is sent to
-- the client directly, which gets the status 200 and nothing more in its body.
pub bodiless_status :
    (c : Course) (body : Body) (f : Flight) (a : Attempt) (attempts : List Attempt)
    → IsUnwritten f.writers
    → body ≢ broken_body
    → c.attempts ≡ a ∷ attempts
    → a.context_error ≡ none
    → a.body ≡ []
    → (a.status == bad_gateway) ≡ false
    → let client = (proxy_request c body f).0.writers.stat.client in
      (client.sent ≡ none) × (status_sent client ≡ 200) × (client.body ≡ f.writers.stat.client.body)
unfolding proxy_request end_request
bodiless_status c body f a attempts new readable e live empty other =
    let (fine, unsent, same) = bodiless a f.writers new empty other in
    let once =
      execute_with_retry-proxied f.scope.cluster.retry_number body a attempts f readable live
        fine in
    rw (e, once, proxy_request)
      (unsent, status_unsent (after_attempt a f.writers).stat.client unsent, same)
