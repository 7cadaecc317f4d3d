-- ===== src/Proxy/Serve.antt =====
-- proxy.go: `serveFromCache`, over any store, with the registry of transactions in memory. Other
-- requests change the store and the registry while this one waits or is proxied.
pub mod Puts
pub mod Transactions
pub mod Hits
use chproxy.Cache.Codec.{ContentMetadata}
use chproxy.Http.{Body}
use chproxy.Proxy.Transaction.{complete_transaction}
use chproxy.Proxy.Retry.{Flight}
use chproxy.Cache.Registry.{create, Registry, TransactionStatus, is_completed, is_failed}
use chproxy.Cache.TmpFile.{
  read_all, TmpFile, reset_file_offset, get_captured_content_length, tmp_status_code,
  tmp_write_header, new_tmp_file,
}
use chproxy.Proxy.Writers.{StatWriter, respond_with_data, respond_with}
use chproxy.Cache.Store.{Store, CachedData}
use chproxy.Scope.Types.{AsyncCache}
use chproxy.Base.{
  Bool, Option, Text, [], bytes, false, if◌then◌else◌, length, ltb, none, not, pos, some, true, ℕ,
  ℤ, ◌++◌, ◌==◌, ◌||◌,
}
use chproxy.Cache.Await.{
  Awaited, settled, error_status, unfinished, await_for_concurrent_transaction,
}
use chproxy.Proxy.Forward.{Course, Return, returned, crashed, ongoing, proxy_request}

-- What `serveFromCache` reads of the configuration, and the key.
pub record Setting : Type 0 where
  pub key : Text
  pub cache : AsyncCache
  pub max_error_reason_size : ℕ

-- `broken_off` is a panic, and `hanging` a call that goes on behind what was given of its course.
pub data Served : Type 0 where
  answered broken_off hanging : Served

module _ (S : Store) where
  pub record World : Type 0 where
    pub store : S.State
    pub registry : Registry
    pub flight : Flight

  -- The course of one call: when it comes, what it sees of the registry while it waits and when it
  -- is woken, what the others do meanwhile, what the file system answers, how the proxied request
  -- goes, and when it is done.
  pub record Visit : Type 0 where
    pub now : ℕ
    pub status_at : ℕ → Option TransactionStatus
    pub lag : ℕ → ℕ
    pub woken : ℕ
    pub others_waiting : S.State × Registry → S.State × Registry
    pub creates : Bool
    pub flushes : Bool
    pub seeks : Bool
    pub course : Course
    pub others_proxying : S.State × Registry → S.State × Registry
    pub finished : ℕ
    pub error : Text
    pub body : Body

abbrev pub with_stat : (StatWriter → StatWriter) → Flight → Flight
with_stat g f = record f { writers = record f.writers { stat = g f.writers.stat } }

-- A response that cannot be sent is followed by the text of the error.
unfoldable pub send_data :
    (payload : Text)
    → ContentMetadata
    → (ttl : ℤ) → (cache_hit : Text) → (status_code : ℕ) → (error : Text) → StatWriter
    → StatWriter
send_data payload m ttl cache_hit status_code error w =
    let (w', sent) = respond_with_data payload m ttl cache_hit status_code w in
    if sent then w' else respond_with error 500 w'

abbrev pub hit : CachedData → StatWriter → StatWriter
hit d w = (respond_with_data d.payload d.metadata d.ttl (bytes "HIT") 200 w).0

-- `failedTransactionPrefix` and the response, if it is not too long, and the file behind it.
unfoldable pub error_reason : (max_error_reason_size : ℕ) → TmpFile → Text × TmpFile
error_reason max t =
    if ltb max (length t.file)
    then (bytes "unknown error reason", t)
    else let (text, t') = read_all t in (bytes "[concurrent query failed] " ++ text, t')

module _ (S : Store) where
  abbrev pub on_flight : (Flight → Flight) → World S → World S
  on_flight g w = record w { flight = g w.flight }

  abbrev pub others : (S.State × Registry → S.State × Registry) → World S → World S
  others g w =
      let (store, registry) = g (w.store, w.registry) in
      record w { store = store; registry = registry }

module _ (S : Store) (cfg : Setting) where
  unfoldable pub fail_with : Text → World S → World S
  fail_with error w = on_flight S (with_stat (respond_with error 500)) w

  -- Neither a response other than 200 nor a canceled one is cached.
  unfoldable pub finish_failed : Visit S → ContentMetadata → TmpFile → World S → World S
  finish_failed v m t w =
      let code = tmp_status_code t in
      let own = w.flight.writers.stat.status_code in
      let t1 = if own == 0 then t else tmp_write_header own t in
      let (reason, t2) = error_reason cfg.max_error_reason_size t1 in
      let w1 = record w {
        registry = complete_transaction code cfg.key reason v.finished w.registry;
      } in
      elim (reset_file_offset t2) [
        | none ↦ fail_with v.error w1
        | some t3 ↦
            on_flight S
              (with_stat (send_data (read_all t3).0 m (pos 0) (bytes "MISS") code v.error)) w1
      ]

  -- A response that is too long for the cache.
  unfoldable pub finish_large : Visit S → ContentMetadata → TmpFile → World S → World S
  finish_large v m t w =
      let code = tmp_status_code t in
      let w1 = record w { registry = complete_transaction code cfg.key [] v.finished w.registry } in
      on_flight S (with_stat (send_data (read_all t).0 m (pos 0) (bytes "N/A") code v.error)) w1

  abbrev expiration : Option ℕ → ℕ
  expiration none = 0
  expiration (some ttl) = ttl

  unfoldable pub finish_cached : Visit S → ContentMetadata → TmpFile → World S → World S
  finish_cached v m t w =
      let code = tmp_status_code t in
      let (payload, t1) = read_all t in
      let (store, ttl) = S.put payload m cfg.key v.finished w.store in
      let w1 = record w {
        store = store;
        registry = complete_transaction code cfg.key [] v.finished w.registry;
      } in
      elim (reset_file_offset t1) [
        | none ↦ fail_with v.error w1
        | some t2 ↦
            on_flight S
              (with_stat
                (send_data (read_all t2).0 m (pos (expiration ttl)) (bytes "MISS") code v.error))
              w1
      ]

  -- The part behind `proxyRequest`.
  unfoldable pub finish : Visit S → TmpFile → World S → World S
  finish v t w = elim (get_captured_content_length t) [
    | none ↦ fail_with v.error w
    | some (t', len) ↦
        let m : ContentMetadata = record {
          content_length = pos len;
          type = t'.content_type;
          encoding = t'.content_encoding;
        } in
        if not (tmp_status_code t' == 200) || w.flight.scope.canceled
        then finish_failed v m t' w
        else if ltb cfg.cache.max_payload_size len
        then finish_large v m t' w
        else finish_cached v m t' w
  ]

  abbrev pub with_tmp : TmpFile → Flight → Flight
  with_tmp t f = record f { writers = record f.writers { tmp = some t } }

  abbrev pub finish_tmp : Visit S → Option TmpFile → World S → World S × Served
  finish_tmp v none w = (w, answered)
  finish_tmp v (some t) w = (finish v t w, answered)

  abbrev pub finish_return : Visit S → Return → World S → World S × Served
  finish_return v crashed w = (w, broken_off)
  finish_return v ongoing w = (w, hanging)
  finish_return v returned w = finish_tmp v w.flight.writers.tmp w

  -- With a temporary file, if it was created.
  abbrev pub fetch_into : (created : Bool) → Visit S → World S → World S × Served
  fetch_into false v w = (fail_with v.error w, answered)
  fetch_into true v w =
      let w1 = record w { registry = create cfg.key v.woken w.registry } in
      let (f, r) =
        proxy_request v.course v.body (with_tmp (new_tmp_file v.flushes v.seeks) w1.flight) in
      finish_return v r (record (others S v.others_proxying w1) { flight = f })

  -- The part behind the waiting: the response wasn't found in the cache.
  unfoldable pub fetch : Visit S → World S → World S × Served
  fetch v w = fetch_into v.creates v w

  unfoldable pub behind_wait : Visit S → Awaited → World S → World S × Served
  behind_wait v unfinished w = (w, hanging)
  behind_wait v (error_status st) w = fetch v w
  behind_wait v (settled st) w =
      if is_completed st.state
      then elim (S.get cfg.key v.woken w.store) [
        | some d ↦ (on_flight S (with_stat (hit d)) w, answered)
        | none ↦ fetch v w
      ]
      else if is_failed st.state
      then (fail_with st.fail_reason w, answered)
      else fetch v w

  unfoldable pub serve_from_cache : (fuel : ℕ) → Visit S → World S → World S × Served
  serve_from_cache fuel v w = elim (S.get cfg.key v.now w.store) [
    | some d ↦ (on_flight S (with_stat (hit d)) w, answered)
    | none ↦
        behind_wait v (await_for_concurrent_transaction cfg.cache.grace_time v.status_at v.lag fuel)
          (others S v.others_waiting w)
  ]
