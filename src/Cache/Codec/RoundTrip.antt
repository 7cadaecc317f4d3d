-- ===== src/Cache/Codec/RoundTrip.antt =====
-- Round trips of the stored formats of cache/filesystem_cache.go and cache/redis_cache.go.
use chproxy.Cache.Codec.Decimal.{IsInt64, itoa_int_short, atoi-itoa_int}
use chproxy.Base.{
  Text, [], ap, append_assoc, arith, drop, drop-length-append, false, leb, length, length-append,
  ltb, negsuc, pos, refl, some, sym, take-length-append, true, u32, ℕ, ℤ, ◌%◌, ◌*◌, ◌++◌, ◌+◌, ◌-◌,
  ◌/◌, ◌<◌, ◌^◌, ◌∙◌, ◌≡◌,
}
use chproxy.Cache.Codec.{
  ContentMetadata, bytes_of_u32, u32_of_bytes, write_header, read_full, read_header, itoa_int,
  decode_header, encode_file, encode_string, decoded, corrupted, decode_string, to_u64, of_u64,
  encode_metadata, decode_encoding, decode_metadata,
}

u32_of_bytes-bytes :
    (n : ℕ)
    → n < 2 ^ 32
    → u32_of_bytes ((n / 2 ^ 24) % 256) ((n / 2 ^ 16) % 256) ((n / 2 ^ 8) % 256) (n % 256) ≡ n
unfolding u32_of_bytes
u32_of_bytes-bytes n h = omega arith

read_full-append : (s r : Text) → read_full (length s) (s ++ r) ≡ some (s, r)
unfolding read_full
read_full-append s r =
    let enough : leb (length s) (length (s ++ r)) ≡ true = ground (arith, length-append s r) in
    rw (enough, take-length-append s r, drop-length-append s r) refl

-- Reading what was written for a header of less than 4 GiB gives the header, and leaves what stands
-- behind it.
pub read_header-write_header :
    (s r : Text) → length s < 2 ^ 32 → read_header (write_header s ++ r) ≡ some (s, r)
unfolding read_header write_header bytes_of_u32
read_header-write_header s r h =
    let small : u32 (length s) ≡ length s = omega arith in
    rw (small, u32_of_bytes-bytes (length s) h) (read_full-append s r)

-- The content stands at the end of the file.
pub encode_file_split :
    (m : ContentMetadata) (payload : Text) → encode_file m payload ≡ encode_file m [] ++ payload
unfolding encode_file
encode_file_split m payload =
    let t = write_header m.type in
    let e = write_header m.encoding in
    let l = write_header (itoa_int m.content_length) in
    sym (
      append_assoc t (e ++ (l ++ [])) payload
      ∙ ap (λ x. t ++ x) (append_assoc e (l ++ []) payload)
      ∙ ap (λ x. t ++ (e ++ x)) (append_assoc l [] payload))

-- Reading a file of the cache as `Put` wrote it gives the metadata and leaves the content, where the
-- two headers are shorter than 4 GiB and the length is an int64.
pub decode_header-encode_file :
    (m : ContentMetadata) (content : Text)
    → length m.type < 2 ^ 32
    → length m.encoding < 2 ^ 32
    → IsInt64 m.content_length
    → decode_header (encode_file m content) ≡ some (m, content)
unfolding decode_header encode_file
decode_header-encode_file m content short_type short_encoding int64 =
    let number = itoa_int m.content_length in
    let behind_encoding = write_header number ++ content in
    let behind_type = write_header m.encoding ++ behind_encoding in
    rw
      (
        read_header-write_header m.type behind_type short_type,
        read_header-write_header m.encoding behind_encoding short_encoding,
        read_header-write_header number content (itoa_int_short m.content_length),
        atoi-itoa_int m.content_length int64,
      )
      refl

decode_string-encode_string :
    (s r : Text)
    → length s + 4 < 2 ^ 32
    → decode_string (encode_string s ++ r) ≡ decoded s (length s + 4)
unfolding decode_string encode_string bytes_of_u32
decode_string-encode_string s r h =
    let small : u32 (length s) ≡ length s = omega arith in
    let end : u32 (4 + length s) ≡ length s + 4 = omega arith in
    let enough : ltb (length (s ++ r) + 4) (length s + 4) ≡ false =
      ground (arith, length-append s r) in
    let in_range : ltb (length s + 4) 4 ≡ false = ground arith in
    let back : length s + 4 - 4 ≡ length s = omega arith in
    rw
      (
        small,
        u32_of_bytes-bytes (length s) (omega arith),
        end,
        enough,
        in_range,
        back,
        take-length-append s r,
      )
      refl

length-encode_string : (s : Text) → length (encode_string s) ≡ length s + 4
unfolding encode_string bytes_of_u32
length-encode_string s = omega arith

drop-encode_string : (s r : Text) → drop (length s + 4) (encode_string s ++ r) ≡ r
drop-encode_string s r = rw (sym (length-encode_string s)) (drop-length-append (encode_string s) r)

u64_of_bytes :
    (w : ℕ)
    → w < 2 ^ 64
    → u32_of_bytes
          ((u32 w / 2 ^ 24) % 256)
          ((u32 w / 2 ^ 16) % 256)
          ((u32 w / 2 ^ 8) % 256)
          (u32 w % 256)
        + u32_of_bytes
            ((w / 2 ^ 32 / 2 ^ 24) % 256)
            ((w / 2 ^ 32 / 2 ^ 16) % 256)
            ((w / 2 ^ 32 / 2 ^ 8) % 256)
            ((w / 2 ^ 32) % 256)
          * 2 ^ 32
      ≡ w
u64_of_bytes w h =
    rw (u32_of_bytes-bytes (u32 w) (omega arith), u32_of_bytes-bytes (w / 2 ^ 32) (omega arith))
      (omega arith)

of_u64-to_u64 : (n : ℤ) → IsInt64 n → of_u64 (to_u64 n) ≡ n
unfolding of_u64 to_u64
of_u64-to_u64 (pos n) h = ground arith
of_u64-to_u64 (negsuc n) h = ground arith

to_u64_bound : (n : ℤ) → to_u64 n < 2 ^ 64
unfolding to_u64
to_u64_bound (pos n) = omega arith
to_u64_bound (negsuc n) = omega arith

decode_encoding-encode_string :
    (n : ℤ) (t e content r : Text) (size : ℕ)
    → drop size r ≡ encode_string e ++ content
    → length e + 4 < 2 ^ 32
    → decode_encoding n r (decoded t size)
      ≡ decoded (record { content_length = n; type = t; encoding = e }) (8 + size + (length e + 4))
unfolding decode_encoding
decode_encoding-encode_string n t e content r size rest h =
    rw (rest, decode_string-encode_string e content h, decode_encoding) refl

size_lem :
    (m : ContentMetadata)
    → 8 + (length m.type + 4) + (length m.encoding + 4) ≡ length (encode_metadata m)
unfolding encode_metadata bytes_of_u32
size_lem m = omega (
  arith,
  length-append (encode_string m.type) (encode_string m.encoding),
  length-encode_string m.type,
  length-encode_string m.encoding,
)

-- Decoding what Redis was given for a response gives the metadata and where the content begins,
-- where the length is an int64 and the two strings with their lengths are shorter than 4 GiB.
pub decode_metadata-encode_metadata :
    (m : ContentMetadata) (content : Text)
    → length m.type + 4 < 2 ^ 32
    → length m.encoding + 4 < 2 ^ 32
    → IsInt64 m.content_length
    → decode_metadata (encode_metadata m ++ content) ≡ decoded m (length (encode_metadata m))
unfolding decode_metadata encode_metadata bytes_of_u32
decode_metadata-encode_metadata m content short_type short_encoding int64 =
    let behind = encode_string m.encoding ++ content in
    rw
      (
        u64_of_bytes (to_u64 m.content_length) (to_u64_bound m.content_length),
        of_u64-to_u64 m.content_length int64,
        append_assoc (encode_string m.type) (encode_string m.encoding) content,
        decode_string-encode_string m.type behind short_type,
        decode_encoding-encode_string m.content_length m.type m.encoding content
            (encode_string m.type ++ behind) (length m.type + 4) (drop-encode_string m.type behind)
            short_encoding,
      )
      (ap (decoded m) (size_lem m))

pub decode_metadata-[] : decode_metadata [] ≡ corrupted
unfolding decode_metadata
decode_metadata-[] = refl
