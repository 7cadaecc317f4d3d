-- ===== src/Proxy/Serve/Puts.antt =====
-- What `serveFromCache` of proxy.go puts in the cache, and what a later request then gets.
use chproxy.Cache.TmpFile.{
  TmpFile, get_captured_content_length, read_all, reset_file_offset, get_file, tmp_status_code,
}
use chproxy.Cache.Codec.{ContentMetadata}
use chproxy.Base.{arith, false, length, pos, refl, ◌≡◌, ◌≤◌, ◌⊎◌}
use chproxy.Cache.Store.{Store}
use chproxy.Proxy.Serve.{
  Setting, Visit, World, finish, finish_failed, finish_large, finish_cached, fail_with,
}

module _ (S : Store) (cfg : Setting) where
  failed-store :
      (v : Visit S) (m : ContentMetadata) (t : TmpFile) (w : World S)
      → (finish_failed S cfg v m t w).store ≡ w.store
  unfolding finish_failed fail_with
  failed-store v m t w = ground arith

  large-store :
      (v : Visit S) (m : ContentMetadata) (t : TmpFile) (w : World S)
      → (finish_large S cfg v m t w).store ≡ w.store
  unfolding finish_large
  large-store v m t w = refl

  pub cached-store :
      (v : Visit S) (m : ContentMetadata) (t : TmpFile) (w : World S)
      → (finish_cached S cfg v m t w).store ≡ (S.put (read_all t).0 m cfg.key v.finished w.store).0
  unfolding finish_cached fail_with
  cached-store v m t w = ground arith

  -- The metadata of a response in a temporary file.
  abbrev pub metadata_of : TmpFile → ContentMetadata
  metadata_of t = record {
    content_length = pos (length t.file);
    type = t.content_type;
    encoding = t.content_encoding;
  }

  -- Behind the proxied request the store is as before, or it was given the whole response, from its
  -- first byte, with its type, encoding and length; and then the response has the status 200, was
  -- not canceled, and is not longer than the limit of the cache.
  pub finish-puts :
      (v : Visit S) (t : TmpFile) (w : World S)
      → ((finish S cfg v t w).store ≡ w.store)
        ⊎ (((finish S cfg v t w).store
              ≡ (S.put t.file (metadata_of t) cfg.key v.finished w.store).0)
            × (tmp_status_code t ≡ 200)
            × (w.flight.scope.canceled ≡ false)
            × (length t.file ≤ cfg.cache.max_payload_size))
  unfolding finish fail_with get_captured_content_length reset_file_offset get_file read_all
      tmp_status_code
  finish-puts v t w =
      let t' = record t { offset = 0 } in
      ground (
        arith,
        failed-store v (metadata_of t) t' w,
        large-store v (metadata_of t) t' w,
        cached-store v (metadata_of t) t' w,
      )
