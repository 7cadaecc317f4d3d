-- ===== src/Cache/Codec.antt =====
-- The stored formats of cache/filesystem_cache.go (`writeHeader`, `readHeader`, `decodeHeader`, the
-- part of `Put` that writes) and of cache/redis_cache.go (`encodeString`, `decodeString`,
-- `encodeMetadata`, `decodeMetadata`). A file or a value is its bytes; a reader is what is left of
-- them.

pub mod Decimal
pub mod RoundTrip
use chproxy.Base.{
  Option, Text, [], atoi, drop, if◌then◌else◌, itoa, leb, length, ltb, negsuc, none, pos, some,
  take, u32, ℕ, ℤ, ◌%◌, ◌*◌, ◌++◌, ◌+◌, ◌-◌, ◌/◌, ◌>>=◌, ◌^◌, ◌∷◌,
}

pub record ContentMetadata : Type 0 where
  pub content_length : ℤ
  pub type : Text
  pub encoding : Text

-- `byte(n>>24), byte(n>>16), byte(n>>8), byte(n)`.
unfoldable pub bytes_of_u32 : ℕ → Text
bytes_of_u32 n = (n / 2 ^ 24) % 256 ∷ (n / 2 ^ 16) % 256 ∷ (n / 2 ^ 8) % 256 ∷ n % 256 ∷ []

u32_of_bytes : (b0 b1 b2 b3 : ℕ) → ℕ
u32_of_bytes b0 b1 b2 b3 = b3 + b2 * 2 ^ 8 + b1 * 2 ^ 16 + b0 * 2 ^ 24

-- The file system's cache: each header behind its length.
pub write_header : Text → Text
unfolding bytes_of_u32
write_header s = bytes_of_u32 (u32 (length s)) ++ s

-- `io.ReadFull`: the first `n` bytes and the rest.
read_full : (n : ℕ) → Text → Option (Text × Text)
read_full n r = if leb n (length r) then some (take n r, drop n r) else none

pub read_header : Text → Option (Text × Text)
unfolding read_full u32_of_bytes
read_header (b0 ∷ b1 ∷ b2 ∷ b3 ∷ r) = read_full (u32_of_bytes b0 b1 b2 b3) r
read_header [] = none
read_header (b0 ∷ []) = none
read_header (b0 ∷ b1 ∷ []) = none
read_header (b0 ∷ b1 ∷ b2 ∷ []) = none

-- `fmt.Sprintf("%d", n)`.
unfoldable pub itoa_int : ℤ → Text
itoa_int (pos n) = itoa n
itoa_int (negsuc n) = b'-' ∷ itoa (n + 1)

-- A length that is no number is read as 0.
abbrev pub or_zero : Option ℤ → ℤ
or_zero none = pos 0
or_zero (some n) = n

pub decode_header : Text → Option (ContentMetadata × Text)
decode_header r = do
  (content_type, r1) ← read_header r
  (content_encoding, r2) ← read_header r1
  (length_text, r3) ← read_header r2
  some (
    record {
      content_length = or_zero (atoi length_text);
      type = content_type;
      encoding = content_encoding;
    },
    r3,
  )

-- What `Put` writes into the file for a response.
pub encode_file : ContentMetadata → (content : Text) → Text
encode_file m content =
    write_header m.type
    ++ (write_header m.encoding ++ (write_header (itoa_int m.content_length) ++ content))

-- Redis: a length of 8 bytes, then two strings behind their lengths.
unfoldable pub encode_string : Text → Text
unfolding bytes_of_u32
encode_string s = bytes_of_u32 (u32 (length s)) ++ s

-- What reading a string gives: the string and its size with the length before it, an error, or a
-- slice whose end is before its begin, which panics.
pub data Decoded {ℓ} (A : Type ℓ) : Type ℓ where
  decoded : A → (size : ℕ) → Decoded A
  corrupted out_of_range : Decoded A

-- `4+n` is a uint32.
decode_string : Text → Decoded Text
unfolding u32_of_bytes
decode_string [] = corrupted
decode_string (b0 ∷ []) = corrupted
decode_string (b0 ∷ b1 ∷ []) = corrupted
decode_string (b0 ∷ b1 ∷ b2 ∷ []) = corrupted
decode_string (b0 ∷ b1 ∷ b2 ∷ b3 ∷ r) =
    let n = u32_of_bytes b0 b1 b2 b3 in
    let end = u32 (4 + n) in
    if ltb (length r + 4) end
    then corrupted
    else if ltb end 4
    then out_of_range
    else decoded (take (end - 4) r) end

-- `Length` as the uint64 of its bytes, and back (`int64(cLength)`).
unfoldable pub to_u64 : ℤ → ℕ
to_u64 (pos n) = n % 2 ^ 64
to_u64 (negsuc n) = 2 ^ 64 - 1 - n % 2 ^ 64

of_u64 : ℕ → ℤ
of_u64 w = if ltb w (2 ^ 63) then pos w else negsuc (2 ^ 64 - 1 - w)

unfoldable pub encode_metadata : ContentMetadata → Text
encode_metadata m =
    let w = to_u64 m.content_length in
    bytes_of_u32 (w / 2 ^ 32)
    ++ (bytes_of_u32 (u32 w) ++ (encode_string m.type ++ encode_string m.encoding))

-- The second string, behind the first one.
decode_encoding : (content_length : ℤ) → Text → Decoded Text → Decoded ContentMetadata
decode_encoding content_length r corrupted = corrupted
decode_encoding content_length r out_of_range = out_of_range
decode_encoding content_length r (decoded content_type size) = elim (decode_string (drop size r)) [
  | corrupted ↦ corrupted
  | out_of_range ↦ out_of_range
  | decoded content_encoding size' ↦
      decoded
        (record {
          content_length = content_length;
          type = content_type;
          encoding = content_encoding;
        })
        (8 + size + size')
]

pub decode_metadata : Text → Decoded ContentMetadata
decode_metadata (b0 ∷ b1 ∷ b2 ∷ b3 ∷ b4 ∷ b5 ∷ b6 ∷ b7 ∷ r) =
    let w = u32_of_bytes b4 b5 b6 b7 + u32_of_bytes b0 b1 b2 b3 * 2 ^ 32 in
    decode_encoding (of_u64 w) r (decode_string r)
decode_metadata r = corrupted
