-- ===== src/Proxy/Handler.antt =====
-- proxy.go: `ServeHTTP`. Metrics and logs are left out; the texts of errors are arguments.
pub mod Releases
use chproxy.Scope.Decorate.{decorate_request}
use chproxy.Cache.Registry.{Registry}
use chproxy.Setup.Types.{ReverseProxy}
use chproxy.Utils.Query.{Decompressor, get_full_query}
use chproxy.Cache.Key.{Key, new_cache_key}
use chproxy.Scope.Limits.{dec}
use chproxy.Proxy.Forward.{Return, proxy_request}
use chproxy.Proxy.Retry.{Flight}
use chproxy.Http.{Request, get_header, Values}
use chproxy.Cache.Store.{Store}
use chproxy.Scope.Types.{Scope, AsyncCache, Limiter}
use chproxy.Proxy.Writers.{header_set, Client, send_body, StatWriter, send_status, respond_with}
use chproxy.Base.{
  Bool, List, Option, Text, [], bytes, false, if◌then◌else◌, is_empty, none, some, ℕ, ◌*◌, ◌++◌,
  ◌∷◌,
}
use chproxy.Proxy.Serve.{
  Setting, Visit, World, Served, answered, broken_off, hanging, serve_from_cache, others, with_stat,
  on_flight,
}
use chproxy.Proxy.Transaction.{should_respond_from_cache}
use chproxy.Scope.Queue.{Nap, inc_queued, started, refused, asleep, panicked, Outcome}
use chproxy.Proxy.Forward.{Return, returned, crashed, ongoing, proxy_request}
use chproxy.Setup.Find.{get_scope, entered, denied, entry_panic, status_of}

-- A response that is written to the client itself.
abbrev pub respond_to_client : (error : Text) (status : ℕ) → Client → Client
respond_to_client error status c = send_body (error ++ (b'\n' ∷ [])) (send_status status c)

abbrev pub set_client_header : Text → Text → Client → Client
set_client_header k v c = record c { header = header_set k v c.header }

-- The headers that are set before the request is proxied.
unfoldable pub cors_header : Scope → Request → Client → Client
cors_header s req c =
    let origin = get_header (bytes "Origin") req.headers in
    if s.user.allow_cors
    then set_client_header (bytes "Access-Control-Allow-Origin")
        (if is_empty origin then bytes "*" else origin) c
    else c

unfoldable pub session_header : Scope → Client → Client
session_header s c =
    if is_empty s.session_id
    then c
    else set_client_header (bytes "X-ClickHouse-Server-Session-Id") s.session_id c

-- `statResponseWriter` around a client.
abbrev pub new_stat_writer : Client → StatWriter
new_stat_writer c = record { client = c; status_code = 0; wrote_header = false }

abbrev pub take_off : Scope → Client → Flight
take_off s c = record { scope = s; writers = record { stat = new_stat_writer c; tmp = none } }

module _ (S : Store) where
  -- What happens around one call of `ServeHTTP`.
  pub record Call : Type 0 where
    pub scope_id : ℕ
    pub local_addr : Text
    pub arrived : ℕ
    pub naps : List Nap
    pub visit : Visit S
    pub scope_error : Text
    pub limit_error : Text
    pub query_error : Text

  -- How a call ends: without a scope, refused by a limit or a full queue, still in a queue, with a
  -- panic before the scope is counted, or handled.
  pub data Handled : Type 0 where
    rejected : Client → Handled
    limited : Scope → Client → Handled
    queued : Scope → Handled
    crashed_early : Handled
    handled : World S → Served → Handled

  abbrev pub served_of : Return → Served
  served_of returned = answered
  served_of crashed = broken_off
  served_of ongoing = hanging

  unfoldable pub serve_directly : Visit S → World S → World S × Served
  serve_directly v w =
      let (f, r) = proxy_request v.course v.body w.flight in
      (record (others S v.others_proxying w) { flight = f }, served_of r)

  -- The deferred `dec`: when the handler returns or panics.
  unfoldable pub release : World S × Served → World S × Served
  release (w, hanging) = (w, hanging)
  release (w, answered) =
      (record w { flight = record w.flight { scope = dec w.flight.scope } }, answered)
  release (w, broken_off) =
      (record w { flight = record w.flight { scope = dec w.flight.scope } }, broken_off)

  module _ (trim : Text → Text) (file_name : Key → Text)
      (decompress : Decompressor → Text → Option Text) (rp : ReverseProxy) (fuel : ℕ) where
    abbrev pub setting : Scope → AsyncCache → Values → (q : Text) → Request → Setting
    setting s cache orig q req = record {
      key = file_name (new_cache_key trim cache s orig q req);
      cache = cache;
      max_error_reason_size = rp.max_error_reason_size;
    }

    unfoldable pub serve_query :
        Call → Scope → Request → (orig : Values) → Option (Text × Bool) → World S → World S × Served
    serve_query c s req orig none w =
        (on_flight S (with_stat (respond_with c.query_error 400)) w, answered)
    serve_query c s req orig (some (q, from_cache)) w =
        let v = record c.visit { body = req.body } in
        let direct = serve_directly v w in
        elim s.user.cache [
          | none ↦ direct
          | some cache ↦
              if from_cache
              then serve_from_cache S (setting s cache orig q req) fuel v w
              else direct
        ]

    -- The part behind `incQueued`.
    unfoldable pub handle : Call → Request → Client → S.State → Registry → Scope → World S × Served
    handle c req client store registry s =
        let w : World S = record {
          store = store;
          registry = registry;
          flight = take_off s (cors_header s req client);
        } in
        release (elim (decorate_request s req) [
          | none ↦ (w, broken_off)
          | some (req', orig) ↦
              serve_query c s req' orig
                (should_respond_from_cache (get_full_query decompress) s.user.cache orig req')
                (record w { flight = take_off s (session_header s (cors_header s req client)) })
        ])

    module _ (hash : Text → ℕ) (allow_n : Limiter → ℕ → ℕ → Bool) where
      unfoldable pub admit :
          Call → Request → Client → S.State → Registry → Scope × Outcome → Handled
      admit c req client store registry (s, started) =
          let (w, served) = handle c req client store registry s in handled w served
      admit c req client store registry (s, refused e) =
          limited s (respond_to_client c.limit_error 429 client)
      admit c req client store registry (s, asleep) = queued s
      admit c req client store registry (s, panicked) = crashed_early

      unfoldable pub serve_http : Call → Request → Client → S.State → Registry → Handled
      serve_http c req client store registry =
          elim (get_scope hash decompress rp c.scope_id c.local_addr req) [
            | entry_panic ↦ crashed_early
            | denied d ↦ rejected (respond_to_client c.scope_error (status_of d) client)
            | entered s ↦
                admit c req client store registry (inc_queued hash allow_n c.naps c.arrived s)
          ]
