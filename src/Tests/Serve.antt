-- ===== src/Tests/Serve.antt =====
-- Examples for the theorems on serving and on the whole handler.
use chproxy.Proxy.Transaction.{should_respond_from_cache}
use chproxy.Scope.Decorate.{
  decorate_request, rewritten, send_to, purify_params, decorate_post_request, is_multipart,
}
use chproxy.Scope.Nodes.{connections_at}
use chproxy.Scope.Types.{HostRef, node_at, update_node}
use chproxy.Proxy.Writers.{
  status_sent, add_headers, write_response, srw_set_status_code, stat_set_status_code, rw_copy,
  rw_write_header, rw_status_code, set_header, copy_to, stat_write, stat_write_header,
  stat_status_code,
}
use chproxy.Scope.Limits.{inc, check_token_free_rate_limiters}
use chproxy.Cache.Registry.{is_pending}
use chproxy.Cache.TmpFile.{TmpFile, tmp_status_code, new_tmp_file, tmp_write, tmp_write_header}
use chproxy.Proxy.Retry.{
  Attempt, execute_with_retry, retry_loop, written_by, code_of, after_attempt,
}
use chproxy.Http.{content}
use chproxy.Base.{
  [], arith, bytes, false, length, none, refl, some, text_eq, true, ◌∷◌, ◌≡◌, ◌≤◌, ◌⊎◌,
}
use chproxy.Proxy.Handler.{Call, release, serve_query, serve_directly, handle}
use chproxy.Proxy.Handler.Releases.{handle-inc}
use chproxy.Proxy.Serve.{
  Setting, Visit, World, Served, answered, finish, fetch, serve_from_cache, on_flight, with_stat,
  hit,
}
use chproxy.Proxy.Serve.Puts.{finish-puts, metadata_of}
use chproxy.Proxy.Serve.Hits.{proxied_then_hit}
use chproxy.Proxy.Serve.Transactions.{fetch_ends_transaction}
use chproxy.Proxy.Forward.{Course, proxy_request, end_request}
use chproxy.Proxy.Forward.Status.{proxy_request-status, bodiless_status}
use chproxy.Cache.Store.{Store, CachedData}
use chproxy.Cache.Files.{file_store, file_put}
use chproxy.Cache.Files.Laws.{file_store-IsLawful}
use chproxy.Tests.Files.{files}
use chproxy.Tests.Retry.{client, flight, bad, fine}
use chproxy.Tests.Cache.{registry}
use chproxy.Tests.Requests.{request}
use chproxy.Tests.Fixtures.{scope}
use chproxy.Tests.Setup.{proxy}
use chproxy.Tests.Limits.{scope-IsWords, accepted_runs, allow}
use chproxy.Cache.Registry.{status, create, is_pending}

abbrev course : Course
course = record { attempts = bad ∷ fine ∷ []; kill_answer = none; timeout_error = [] }

proxy_request-status_example :
    (proxy_request course (content (bytes "x")) flight).0.writers.stat.client.sent
    ≡ some (502, (add_headers bad.headers flight.writers.stat).client.header)
proxy_request-status_example =
    proxy_request-status course (content (bytes "x")) flight bad (fine ∷ [])
      (record { direct = refl; unsent = refl; unwritten = refl }) (λ e. cc) refl refl (omega arith)

abbrev missing : Attempt
missing = record fine { status = 404; body = [] }

abbrev empty_course : Course
empty_course = record course { attempts = missing ∷ [] }

bodiless_status_example :
    let c = (proxy_request empty_course (content (bytes "x")) flight).0.writers.stat.client in
    (c.sent ≡ none) × (status_sent c ≡ 200) × (c.body ≡ [])
bodiless_status_example =
    bodiless_status empty_course (content (bytes "x")) flight missing []
      (record { direct = refl; unsent = refl; unwritten = refl }) (λ e. cc) refl refl refl refl

abbrev store : Store
store = file_store (λ _. none) (λ _. none)

abbrev setting : Setting
setting = record {
  key = bytes "k";
  cache = record {
    name = bytes "short";
    grace_time = 5;
    max_payload_size = 100;
    shared_with_all_users = false;
  };
  max_error_reason_size = 50;
}

abbrev visit : Visit store
visit = record {
  now = 10;
  status_at = λ _. none;
  lag = λ _. 0;
  woken = 11;
  others_waiting = λ x. x;
  creates = true;
  flushes = true;
  seeks = true;
  course = record course { attempts = fine ∷ [] };
  others_proxying = λ x. x;
  finished = 20;
  error = bytes "error";
  body = content (bytes "x");
}

abbrev world : World store
world = record { store = files; registry = registry; flight = flight }

abbrev tmp : TmpFile
tmp = record (new_tmp_file true true) { file = bytes "abc"; content_type = bytes "text/csv" }

finish-puts_example :
    ((finish store setting visit tmp world).store ≡ files)
    ⊎ (((finish store setting visit tmp world).store
          ≡ (store.put tmp.file (metadata_of store setting tmp) (bytes "k") 20 files).0)
        × (tmp_status_code tmp ≡ 200)
        × (world.flight.scope.canceled ≡ false)
        × (length tmp.file ≤ 100))
finish-puts_example = finish-puts store setting visit tmp world

abbrev later : Visit store
later = record visit { now = 70 }

proxied_then_hit_example :
    let w' = record world { store = (finish store setting visit tmp world).store } in
    (d : CachedData) × (serve_from_cache store setting 0 later w'
      ≡ (on_flight store (with_stat (hit d)) w', answered))
    × (d.metadata ≡ metadata_of store setting tmp)
    × (d.payload ≡ bytes "abc")
unfolding new_tmp_file tmp_status_code file_put
proxied_then_hit_example =
    proxied_then_hit store setting (file_store-IsLawful (λ _. none) (λ _. none) (λ now. refl)) visit
      tmp world refl refl refl refl (omega arith)
      (record { short_type = omega arith; short_encoding = omega arith; int64 = omega arith }) refl
      0 later (record world { store = (finish store setting visit tmp world).store }) refl
      (omega arith) (omega arith)

abbrev fetched : World store
fetched = (fetch store setting visit world).0

fetch_ends_transaction_example :
    ((true ≡ true) × (is_pending (status (bytes "k") fetched.registry).state ≡ false))
    ⊎ ((true ≡ false) × (fetched.registry ≡ create (bytes "k") 11 registry))
unfolding fetch new_tmp_file proxy_request execute_with_retry retry_loop written_by code_of
    after_attempt write_response end_request srw_set_status_code stat_set_status_code rw_copy
    rw_write_header rw_status_code tmp_write tmp_status_code tmp_write_header set_header
fetch_ends_transaction_example =
    fetch_ends_transaction store setting visit world fetched refl refl refl

abbrev call : Call store
call = record {
  scope_id = 11;
  local_addr = [];
  arrived = 9;
  naps = [];
  visit = visit;
  scope_error = [];
  limit_error = [];
  query_error = [];
}

abbrev handled : World store × Served
handled =
    handle store (λ t. t) (λ k. bytes "k") (λ d t. some t) proxy 9 call request client files
      registry (inc allow 0 (scope 2)).0

handled_ends : handled.1 ≡ answered
unfolding handle decorate_request rewritten send_to node_at release serve_query serve_directly inc
    check_token_free_rate_limiters should_respond_from_cache proxy_request execute_with_retry
    retry_loop written_by code_of after_attempt write_response end_request srw_set_status_code
    stat_set_status_code rw_copy rw_write_header rw_status_code set_header copy_to stat_write
    stat_write_header stat_status_code purify_params decorate_post_request is_multipart text_eq
    update_node
handled_ends = refl

handle-inc_example :
    let t = handled.0.flight.scope in
    (t.user.query_counter ≡ 1)
    × (t.cluster_user.query_counter ≡ 1)
    × ((k : HostRef) → connections_at t.cluster k ≡ connections_at (scope 2).cluster k)
handle-inc_example =
    handle-inc store (λ t. t) (λ k. bytes "k") (λ d t. some t) proxy 9 allow 0 call request client
      files registry (scope 2) (scope-IsWords 2) accepted_runs ((λ c k. refl), tt)
      (λ h. cc (handled_ends, h))
