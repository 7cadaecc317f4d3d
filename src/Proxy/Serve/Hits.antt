-- ===== src/Proxy/Serve/Hits.antt =====
-- `serveFromCache` of proxy.go: what was proxied once is answered from the cache later.
use chproxy.Cache.Codec.{ContentMetadata}
use chproxy.Proxy.Serve.Puts.{metadata_of}
use chproxy.Base.{Text, ap, arith, false, length, refl, some, true, ℕ, ◌+◌, ◌∙◌, ◌≡◌, ◌≤◌}
use chproxy.Cache.TmpFile.{
  TmpFile, get_captured_content_length, read_all, reset_file_offset, get_file, tmp_status_code,
}
use chproxy.Proxy.Serve.Puts.{cached-store, metadata_of}
use chproxy.Cache.Store.{Store, IsLawful, CachedData}
use chproxy.Proxy.Serve.{
  Setting, Visit, World, finish, fail_with, serve_from_cache, with_stat, on_flight, hit, answered,
}

module _ (S : Store) (cfg : Setting) where
  finish-store :
      (v : Visit S) (t : TmpFile) (w : World S)
      → t.flushes ≡ true
      → t.seeks ≡ true
      → tmp_status_code t ≡ 200
      → w.flight.scope.canceled ≡ false
      → length t.file ≤ cfg.cache.max_payload_size
      → (finish S cfg v t w).store
        ≡ (S.put t.file (metadata_of S cfg t) cfg.key v.finished w.store).0
  unfolding finish fail_with get_captured_content_length reset_file_offset get_file read_all
      tmp_status_code
  finish-store v t w flushes seeks ok runs short =
      let t' = record t { offset = 0 } in
      ground (arith, cached-store S cfg v (metadata_of S cfg t) t' w)

  serve_from_cache-hit :
      (fuel : ℕ) (v : Visit S) (w : World S) (d : CachedData)
      → S.get cfg.key v.now w.store ≡ some d
      → serve_from_cache S cfg fuel v w ≡ (on_flight S (with_stat (hit d)) w, answered)
  unfolding serve_from_cache
  serve_from_cache-hit fuel v w d e = rw (e, serve_from_cache) refl

  -- A whole response with the status 200 that was proxied, is not too long and was put in a lawful
  -- store is what every later request with the same key is answered, as long as nobody changes the
  -- store and the time to live is not over: nothing is proxied, the registry and the scope stay as
  -- they are, and the answer is the response, with its type, encoding and length.
  pub proxied_then_hit :
      {Fits : ContentMetadata → Text → Type 0}
      → IsLawful S Fits
      → (v : Visit S) (t : TmpFile) (w : World S) {ttl : ℕ} → t.flushes ≡ true
      → t.seeks ≡ true
      → tmp_status_code t ≡ 200
      → w.flight.scope.canceled ≡ false
      → length t.file ≤ cfg.cache.max_payload_size
      → Fits (metadata_of S cfg t) t.file
      → (S.put t.file (metadata_of S cfg t) cfg.key v.finished w.store).1 ≡ some ttl
      → (fuel : ℕ) (later : Visit S) (w' : World S) → w'.store ≡ (finish S cfg v t w).store
      → v.finished ≤ later.now
      → later.now ≤ v.finished + ttl
      → (d : CachedData) × (serve_from_cache S cfg fuel later w'
          ≡ (on_flight S (with_stat (hit d)) w', answered))
        × (d.metadata ≡ metadata_of S cfg t)
        × (d.payload ≡ t.file)
  proxied_then_hit law v t w flushes seeks ok runs short fits stored fuel later w' same le soon =
      let (d, found, meta, payload) =
        law.get-put t.file (metadata_of S cfg t) cfg.key v.finished later.now w.store fits stored le
          soon in
      let here = same ∙ finish-store v t w flushes seeks ok runs short in
      (
        d,
        serve_from_cache-hit fuel later w' d (ap (S.get cfg.key later.now) here ∙ found),
        meta,
        payload,
      )
