-- ===== src/Proxy/Handler/Releases.antt =====
-- The counters and connections of a request that `ServeHTTP` of proxy.go lets go.
use chproxy.Scope.Limits.Release.{IsWords, dec-inc}
use chproxy.Proxy.Transaction.{should_respond_from_cache}
use chproxy.Scope.Decorate.{decorate_request}
use chproxy.Proxy.Writers.{Client}
use chproxy.Http.{Request, Values}
use chproxy.Setup.Types.{ReverseProxy}
use chproxy.Scope.Nodes.{connections_at}
use chproxy.Utils.Query.{Decompressor, get_full_query}
use chproxy.Cache.Key.{Key}
use chproxy.Scope.Limits.{dec, inc}
use chproxy.Scope.Types.{Scope, HostRef, Limiter}
use chproxy.Cache.Registry.{create, is_completed, is_failed, Registry}
use chproxy.Proxy.Forward.{Return}
use chproxy.Cache.TmpFile.{TmpFile, new_tmp_file}
use chproxy.Cache.Store.{Store}
use chproxy.Base.{
  Bool, Bool-cases, Option, Option-cases, Text, ap, arith, dec32, false, inl, inr, none, refl, some,
  subst, sym, true, ℕ, ◌∙◌, ◌≡◌, ◌≢◌,
}
use chproxy.Proxy.Handler.{
  setting, Call, take_off, serve_query, serve_directly, handle, release, cors_header,
  session_header,
}
use chproxy.Proxy.Serve.{
  Setting, Visit, World, Served, answered, broken_off, hanging, serve_from_cache, finish,
  finish_failed, finish_large, finish_cached, fail_with, fetch, fetch_into, finish_return,
  behind_wait, others, finish_tmp, with_tmp,
}
use chproxy.Cache.Await.{
  Awaited, settled, error_status, unfinished, await_for_concurrent_transaction,
}
use chproxy.Proxy.Forward.{Return, returned, crashed, ongoing, proxy_request}
use chproxy.Proxy.Retry.Connections.{SameOthers, IsQuiet, without_own}
use chproxy.Proxy.Forward.Kept.{proxy_request-SameOthers, SameOthers-refl}

module _ (S : Store) (cfg : Setting) where
  finish-scope :
      (v : Visit S) (t : TmpFile) (w : World S) → (finish S cfg v t w).flight.scope ≡ w.flight.scope
  unfolding finish finish_failed finish_large finish_cached fail_with
  finish-scope v t w = ground arith

  finish_tmp-scope :
      (v : Visit S) (o : Option TmpFile) (w : World S)
      → (finish_tmp S cfg v o w).0.flight.scope ≡ w.flight.scope
  finish_tmp-scope v none w = refl
  finish_tmp-scope v (some t) w = finish-scope v t w

  return-scope :
      (v : Visit S) (r : Return) (w : World S)
      → (finish_return S cfg v r w).0.flight.scope ≡ w.flight.scope
  return-scope v crashed w = refl
  return-scope v ongoing w = refl
  return-scope v returned w = finish_tmp-scope v w.flight.writers.tmp w

  into-SameOthers :
      (created : Bool) (v : Visit S) (w : World S)
      → IsQuiet v.course.attempts
      → SameOthers w.flight.scope (fetch_into S cfg created v w).0.flight.scope
  unfolding fail_with
  into-SameOthers false v w quiet = SameOthers-refl w.flight.scope
  into-SameOthers true v w quiet =
      let w1 = record w { registry = create cfg.key v.woken w.registry } in
      let f0 = with_tmp S cfg (new_tmp_file v.flushes v.seeks) w1.flight in
      let (f, r) = proxy_request v.course v.body f0 in
      subst (SameOthers w.flight.scope)
        (sym (return-scope v r (record (others S v.others_proxying w1) { flight = f })))
        (proxy_request-SameOthers v.course v.body f0 quiet)

  wait-SameOthers :
      (v : Visit S) (a : Awaited) (w : World S)
      → IsQuiet v.course.attempts
      → SameOthers w.flight.scope (behind_wait S cfg v a w).0.flight.scope
  unfolding behind_wait fetch fail_with
  wait-SameOthers v unfinished w quiet = SameOthers-refl w.flight.scope
  wait-SameOthers v (error_status st) w quiet = into-SameOthers v.creates v w quiet
  wait-SameOthers v (settled st) w quiet =
      let fetched = into-SameOthers v.creates v w quiet in
      let same = SameOthers-refl w.flight.scope in
      elim (Bool-cases (is_completed st.state)) [
        | inl ended ↦ elim (Option-cases (S.get cfg.key v.woken w.store)) [
          | inl missing ↦ rw (ended, missing, behind_wait) fetched
          | inr (d, there) ↦ rw (ended, there, behind_wait) same
        ]
        | inr e ↦ elim (Bool-cases (is_failed st.state)) [
          | inl broken ↦ rw (e, broken, behind_wait) same
          | inr running ↦ rw (e, running, behind_wait) fetched
        ]
      ]

  serve_from_cache-SameOthers :
      (fuel : ℕ) (v : Visit S) (w : World S)
      → IsQuiet v.course.attempts
      → SameOthers w.flight.scope (serve_from_cache S cfg fuel v w).0.flight.scope
  unfolding serve_from_cache
  serve_from_cache-SameOthers fuel v w quiet = elim (Option-cases (S.get cfg.key v.now w.store)) [
    | inr (d, there) ↦ rw (there, serve_from_cache) (SameOthers-refl w.flight.scope)
    | inl missing ↦
        rw (missing, serve_from_cache)
          (wait-SameOthers v
            (await_for_concurrent_transaction cfg.cache.grace_time v.status_at v.lag fuel)
            (others S v.others_waiting w) quiet)
  ]

-- What a request gives back: the two counters go down, and each node keeps the connections that it
-- has without this request's own one.
pub record IsReleased (s t : Scope) : Type 0 where
  pub user_queries : t.user.query_counter ≡ dec32 s.user.query_counter
  pub cluster_user_queries : t.cluster_user.query_counter ≡ dec32 s.cluster_user.query_counter
  pub connections : (k : HostRef) → connections_at t.cluster k ≡ without_own s k

module _ (S : Store) where
  release-IsReleased :
      (s : Scope) (w : World S) (o : Served)
      → SameOthers s w.flight.scope
      → (release S (w, o)).1 ≢ hanging
      → IsReleased s (release S (w, o)).0.flight.scope
  unfolding release dec
  release-IsReleased s w hanging h ends = absurd (ends refl)
  release-IsReleased s w answered h ends = record {
    user_queries = ap (λ u. dec32 u.query_counter) h.same_user;
    cluster_user_queries = ap (λ u. dec32 u.query_counter) h.same_cluster_user;
    connections = h.same_connections;
  }
  release-IsReleased s w broken_off h ends = record {
    user_queries = ap (λ u. dec32 u.query_counter) h.same_user;
    cluster_user_queries = ap (λ u. dec32 u.query_counter) h.same_cluster_user;
    connections = h.same_connections;
  }

  module _ (trim : Text → Text) (file_name : Key → Text)
      (decompress : Decompressor → Text → Option Text) (rp : ReverseProxy) (fuel : ℕ) where
    query-SameOthers :
        (c : Call S) (s : Scope) (req : Request) (orig : Values) (a : Option (Text × Bool))
        (w : World S)
        → IsQuiet c.visit.course.attempts
        → SameOthers w.flight.scope
            (serve_query S trim file_name decompress rp fuel c s req orig a w).0.flight.scope
    unfolding serve_query serve_directly
    query-SameOthers c s req orig none w quiet = SameOthers-refl w.flight.scope
    query-SameOthers c s req orig (some (q, from_cache)) w quiet =
        let v = record c.visit { body = req.body } in
        let direct = proxy_request-SameOthers v.course v.body w.flight quiet in
        elim (Option-cases s.user.cache) [
          | inl off ↦ rw (off, serve_query) direct
          | inr (cache, on) ↦ elim (Bool-cases from_cache) [
            | inr direct_only ↦ rw (on, direct_only, serve_query) direct
            | inl cached ↦
                let cfg = setting S trim file_name decompress rp fuel s cache orig q req in
                rw (on, cached, serve_query) (serve_from_cache-SameOthers S cfg fuel v w quiet)
          ]
        ]

    -- However a request is answered, from the cache or by ClickHouse, at the first try or the last,
    -- with an error, killed or with a panic: when the handler ends, the request has given back what
    -- it was counted with. Both counters are down by one, and each node of the cluster has the
    -- connections that it had without this request, as long as the others leave as many as they
    -- find.
    handle-IsReleased :
        (c : Call S) (req : Request) (client : Client) (store : S.State) (registry : Registry)
        (s : Scope)
        → IsQuiet c.visit.course.attempts
        → let r = handle S trim file_name decompress rp fuel c req client store registry s in
          r.1 ≢ hanging → IsReleased s r.0.flight.scope
    unfolding handle
    handle-IsReleased c req client store registry s quiet =
        let w : World S = record {
          store = store;
          registry = registry;
          flight = take_off s (cors_header s req client);
        } in
        elim (Option-cases (decorate_request s req)) [
          | inl lost ↦ rw (lost, handle) (release-IsReleased s w broken_off (SameOthers-refl s))
          | inr ((req', orig), sent) ↦
              let w' = record w {
                flight = take_off s (session_header s (cors_header s req client));
              } in
              let a =
                should_respond_from_cache (get_full_query decompress) s.user.cache orig req' in
              let (w2, o) = serve_query S trim file_name decompress rp fuel c s req' orig a w' in
              rw (sent, handle)
                (release-IsReleased s w2 o (query-SameOthers c s req' orig a w' quiet))
        ]

    -- A request that inc let in leaves no trace when its handler ends: both query counters, and the
    -- connections of every node, are what they were before it came, as long as the others leave as
    -- many connections as they find.
    pub handle-inc :
        (allow_n : Limiter → ℕ → ℕ → Bool) (now : ℕ) (c : Call S) (req : Request) (client : Client)
        (store : S.State) (registry : Registry) (s : Scope)
        → IsWords s
        → (inc allow_n now s).1 ≡ none
        → IsQuiet c.visit.course.attempts
        → (handle S trim file_name decompress rp fuel c req client store registry
            (inc allow_n now s).0).1
          ≢ hanging
        → let r =
            handle S trim file_name decompress rp fuel c req client store registry
              (inc allow_n now s).0 in
          let t = r.0.flight.scope in
          (t.user.query_counter ≡ s.user.query_counter)
          × (t.cluster_user.query_counter ≡ s.cluster_user.query_counter)
          × ((k : HostRef) → connections_at t.cluster k ≡ connections_at s.cluster k)
    unfolding dec
    handle-inc allow_n now c req client store registry s words ok quiet ends =
        let s1 = (inc allow_n now s).0 in
        let same = dec-inc allow_n now s words ok in
        let back = handle-IsReleased c req client store registry s1 quiet ends in
        (
          back.user_queries ∙ same.same_user,
          back.cluster_user_queries ∙ same.same_cluster_user,
          λ k. back.connections k ∙ ap (λ d. connections_at d k) same.same_cluster,
        )
