-- ===== src/Cache/Files/Laws.antt =====
-- The file system's cache as a store: what was put is found until it expires, and what a failed
-- `Put` of cache/filesystem_cache.go leaves.
use chproxy.Cache.Codec.{ContentMetadata, encode_file}
use chproxy.Base.{
  Option, Text, [], ap, arith, false, length, lookup-insert_self, ltb, none, refl, some, sym, take,
  take-length-add, ℕ, ◌+◌, ◌-◌, ◌<◌, ◌^◌, ◌∙◌, ◌≡◌, ◌≤◌,
}
use chproxy.Cache.Store.{IsLawful, CachedData}
use chproxy.Cache.Codec.RoundTrip.{decode_header-encode_file, encode_file_split}
use chproxy.Cache.Codec.Decimal.{IsInt64}
use chproxy.Cache.Files.{
  FileCache, Damage, ReadTrouble, broken_at, file_get, file_put, file_store, StoredFile, time_left,
}

-- Headers shorter than 4 GiB and a length that is an int64.
pub record Fits (m : ContentMetadata) : Type 0 where
  pub short_type : length m.type < 2 ^ 32
  pub short_encoding : length m.encoding < 2 ^ 32
  pub int64 : IsInt64 m.content_length

-- The bytes of a file up to some byte of the content.
take-encode_file :
    (m : ContentMetadata) (payload : Text) (n : ℕ)
    → take (length (encode_file m []) + n) (encode_file m payload) ≡ encode_file m (take n payload)
take-encode_file m payload n =
    ap (take (length (encode_file m []) + n)) (encode_file_split m payload)
    ∙ take-length-add (encode_file m []) payload n
    ∙ sym (encode_file_split m (take n payload))

module _ (damage : ℕ → Option Damage) where
  put-stored :
      (payload : Text) (m : ContentMetadata) (key : Text) (now : ℕ) (c : FileCache) {ttl : ℕ}
      → (file_put damage payload m key now c).1 ≡ some ttl
      → (damage now ≡ none) × (c.expire ≡ ttl)
  unfolding file_put
  put-stored payload m key now c h = ground arith

  put-found :
      (payload : Text) (m : ContentMetadata) (key : Text) (now later : ℕ) (c : FileCache) {ttl : ℕ}
      → Fits m
      → (file_put damage payload m key now c).1 ≡ some ttl
      → now ≤ later
      → later ≤ now + ttl
      → (d : CachedData) × (file_get none key later (file_put damage payload m key now c).0
          ≡ some d)
        × (d.metadata ≡ m)
        × (d.payload ≡ payload)
  unfolding file_get file_put
  put-found payload m key now later c fits stored le soon =
      let (e, same) = put-stored payload m key now c stored in
      let f : StoredFile = record { bytes = encode_file m payload; mod_time = now } in
      let fresh : ltb c.expire (later - now) ≡ false = ground arith in
      let back =
        decode_header-encode_file m payload fits.short_type fits.short_encoding fits.int64 in
      let d : CachedData = record {
        metadata = m;
        payload = payload;
        ttl = time_left c.expire (later - now);
      } in
      (d, rw (e, file_put, lookup-insert_self key f c.files, fresh, back) refl, refl, refl)

  -- A `Put` whose writing breaks off behind the headers reports an error and leaves an entry: by a
  -- `Get` that can read it, it is served with the length of the whole response and the part of it that was written.
  pub broken_put-served :
      (payload : Text) (m : ContentMetadata) (key : Text) (now : ℕ) (c : FileCache) (n : ℕ)
      → Fits m
      → damage now ≡ some (broken_at (length (encode_file m []) + n))
      → let r = file_put damage payload m key now c in
        (r.1 ≡ none)
        × ((d : CachedData) × (file_get none key now r.0 ≡ some d)
            × (d.metadata ≡ m)
            × (d.payload ≡ take n payload))
  unfolding file_get file_put
  broken_put-served payload m key now c n fits e =
      let cut = take-encode_file m payload n in
      let f : StoredFile = record { bytes = encode_file m (take n payload); mod_time = now } in
      let fresh : ltb c.expire (now - now) ≡ false = ground arith in
      let back =
        decode_header-encode_file m (take n payload) fits.short_type fits.short_encoding
          fits.int64 in
      let d : CachedData = record {
        metadata = m;
        payload = take n payload;
        ttl = time_left c.expire (now - now);
      } in
      (
        rw (e, file_put),
        (d, rw (e, file_put, cut, lookup-insert_self key f c.files, fresh, back) refl, refl, refl),
      )

  -- The file system's cache is a lawful store, whatever happens to the writing of files, if they can
  -- be opened and read: what a `Put` that reports no error has written is found until it expires.
  pub file_store-IsLawful :
      (trouble : ℕ → Option ReadTrouble)
      → ((now : ℕ) → trouble now ≡ none)
      → IsLawful (file_store damage trouble) (λ m payload. Fits m)
  file_store-IsLawful trouble readable = record {
    get-put = λ payload m key now later c {ttl} fits stored le soon.
        rw (readable later) (put-found payload m key now later c fits stored le soon);
  }
