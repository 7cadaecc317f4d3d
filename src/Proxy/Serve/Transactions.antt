-- ===== src/Proxy/Serve/Transactions.antt =====
-- How `serveFromCache` of proxy.go ends the transaction that it created.
use chproxy.Proxy.Forward.Files.{proxy_request-HasFile}
use chproxy.Cache.TmpFile.{
  TmpFile, tmp_status_code, get_captured_content_length, tmp_write_header, reset_file_offset,
  read_all, get_file, new_tmp_file,
}
use chproxy.Cache.Codec.{ContentMetadata}
use chproxy.Base.{
  Bool-cases, Option-cases, Text, [], ap, arith, false, if◌then◌else◌, inl, inr, length, pos, refl,
  some, subst, true, ℕ, ◌==◌, ◌∙◌, ◌≡◌, ◌⊎◌,
}
use chproxy.Cache.Store.{Store}
use chproxy.Cache.Registry.{Registry, is_pending, status, create}
use chproxy.Proxy.Transaction.{complete_transaction, complete_transaction-status}
use chproxy.Proxy.Forward.{Return, returned, crashed, ongoing, proxy_request}
use chproxy.Proxy.Serve.{
  fetch_into, Served, finish_tmp, Setting, Visit, World, finish, finish_failed, finish_large,
  finish_cached, fail_with, fetch, with_tmp, others, answered, error_reason, finish_return,
}

complete_transaction_ends :
    (code : ℕ) (key reason : Text) (now : ℕ) (r : Registry)
    → is_pending (status key (complete_transaction code key reason now r)).state ≡ false
unfolding is_pending
complete_transaction_ends code key reason now r =
    ground (arith, complete_transaction-status code key reason now r)

module _ (S : Store) (cfg : Setting) where
  abbrev IsEnded : World S → Type 0
  IsEnded w = is_pending (status cfg.key w.registry).state ≡ false

  failed-IsEnded :
      (v : Visit S) (m : ContentMetadata) (t : TmpFile) (w : World S)
      → IsEnded (finish_failed S cfg v m t w)
  unfolding finish_failed fail_with
  failed-IsEnded v m t w =
      let code = tmp_status_code t in
      let own = w.flight.writers.stat.status_code in
      let t1 = if own == 0 then t else tmp_write_header own t in
      let reason = (error_reason cfg.max_error_reason_size t1).0 in
      let ended = complete_transaction_ends code cfg.key reason v.finished w.registry in
      elim (Option-cases (reset_file_offset (error_reason cfg.max_error_reason_size t1).1)) [
        | inl e ↦ rw (e, finish_failed) ended
        | inr (t3, e) ↦ rw (e, finish_failed) ended
      ]

  large-IsEnded :
      (v : Visit S) (m : ContentMetadata) (t : TmpFile) (w : World S)
      → IsEnded (finish_large S cfg v m t w)
  unfolding finish_large
  large-IsEnded v m t w =
      complete_transaction_ends (tmp_status_code t) cfg.key [] v.finished w.registry

  cached-IsEnded :
      (v : Visit S) (m : ContentMetadata) (t : TmpFile) (w : World S)
      → IsEnded (finish_cached S cfg v m t w)
  unfolding finish_cached fail_with
  cached-IsEnded v m t w =
      let ended = complete_transaction_ends (tmp_status_code t) cfg.key [] v.finished w.registry in
      elim (Option-cases (reset_file_offset (read_all t).1)) [
        | inl e ↦ rw (e, finish_cached) ended
        | inr (t2, e) ↦ rw (e, finish_cached) ended
      ]

  finish-IsEnded :
      (v : Visit S) (t : TmpFile) (w : World S)
      → t.flushes ≡ true
      → t.seeks ≡ true
      → IsEnded (finish S cfg v t w)
  unfolding finish get_captured_content_length reset_file_offset get_file
  finish-IsEnded v t w flushes seeks =
      let t' = record t { offset = 0 } in
      let m : ContentMetadata = record {
        content_length = pos (length t.file);
        type = t.content_type;
        encoding = t.content_encoding;
      } in
      ground (arith, failed-IsEnded v m t' w, large-IsEnded v m t' w, cached-IsEnded v m t' w)

  unflushed_registry :
      (v : Visit S) (t : TmpFile) (w : World S)
      → t.flushes ≡ false
      → (finish S cfg v t w).registry ≡ w.registry
  unfolding finish get_captured_content_length get_file fail_with
  unflushed_registry v t w flushes = ground arith

  return_ends :
      (v : Visit S) (r : Return) (t : TmpFile) (w w' : World S)
      → w.flight.writers.tmp ≡ some t
      → t.seeks ≡ true
      → finish_return S cfg v r w ≡ (w', answered)
      → (t.flushes ≡ true → IsEnded w') × (t.flushes ≡ false → w'.registry ≡ w.registry)
  return_ends v crashed t w w' has seeks done = cc
  return_ends v ongoing t w w' has seeks done = cc
  return_ends v returned t w w' has seeks done =
      let same : finish S cfg v t w ≡ w' =
        ap (λ (p : World S × Served). p.0)
          (subst (λ o. finish_tmp S cfg v o w ≡ (w', answered)) has done) in
      (
        λ flushes. subst IsEnded same (finish-IsEnded v t w flushes seeks),
        λ flushes. subst (λ x. x.registry ≡ w.registry) same (unflushed_registry v t w flushes),
      )

  -- A request that fetches a response, with a temporary file that can be rewound, ends the transaction
  -- that it created, whatever the response, the others and the client do: when it returns, those who
  -- wait for the transaction wait no longer. The exception is a file that cannot be flushed: then
  -- nobody ends it, and the registry is what the others made of it.
  pub fetch_ends_transaction :
      (v : Visit S) (w w' : World S)
      → v.creates ≡ true
      → v.seeks ≡ true
      → fetch S cfg v w ≡ (w', answered)
      → ((v.flushes ≡ true) × IsEnded w')
        ⊎ ((v.flushes ≡ false)
            × (w'.registry ≡ (v.others_proxying (w.store, create cfg.key v.woken w.registry)).1))
  unfolding fetch new_tmp_file
  fetch_ends_transaction v w w' creates seeks done =
      let f0 = with_tmp S cfg (new_tmp_file v.flushes v.seeks) w.flight in
      let (t, has, flushes, seeks') =
        proxy_request-HasFile v.flushes v.seeks v.course v.body f0
          (new_tmp_file v.flushes v.seeks, refl, refl, refl) in
      let w1 = record w { registry = create cfg.key v.woken w.registry } in
      let (f, r) = proxy_request v.course v.body f0 in
      let w2 = record (others S v.others_proxying w1) { flight = f } in
      let (ended, left) =
        return_ends v r t w2 w' has (seeks' ∙ seeks)
          (subst (λ b. fetch_into S cfg b v w ≡ (w', answered)) creates done) in
      elim (Bool-cases v.flushes) [
        | inl h ↦ inl (h, ended (flushes ∙ h))
        | inr h ↦ inr (h, left (flushes ∙ h))
      ]
