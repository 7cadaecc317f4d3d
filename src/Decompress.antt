-- ===== src/Decompress.antt =====
-- chdecompressor/decompressor.go: the reader of ClickHouse's compressed format. The source is the
-- bytes that are left of it. `lz4` gives the buffer of the decompressed size that
-- `lz4.UncompressBlock` filled, `zstd` what `DecodeAll` gives; `none` is an error.
pub mod RoundTrip
use chproxy.Base.{
  Option, Stop, Text, [], at_end, drop, if◌then◌else◌, inl, inr, is_empty, leb, length, none,
  read_failed, some, take, u32, ℕ, ◌*◌, ◌+◌, ◌-◌, ◌==◌, ◌>>=◌, ◌^◌, ◌∷◌, ◌⊎◌,
}

pub record Reader : Type 0 where
  pub src : Text
  pub rest : Text  -- `data`

unfoldable pub new_reader : Text → Reader
new_reader src = record { src = src; rest = [] }

-- Little-endian.
unfoldable pub read_uint32 : Text → Option (ℕ × Text)
read_uint32 (b0 ∷ b1 ∷ b2 ∷ b3 ∷ r) = some (b0 + b1 * 2 ^ 8 + b2 * 2 ^ 16 + b3 * 2 ^ 24, r)
read_uint32 r = none

unfoldable pub read_bytes : ℕ → Text → Option (Text × Text)
read_bytes n r = if leb n (length r) then some (take n r, drop n r) else none

abbrev pub none_type : ℕ
none_type = 0x02

abbrev pub lz4_type : ℕ
lz4_type = 0x82

abbrev pub zstd_type : ℕ
zstd_type = 0x90

module _ (lz4 : Text → ℕ → Option Text) (zstd : Text → Option Text) where
  unfoldable pub decompress_block :
      (block : Text) (compression_type decompressed_size : ℕ) → Option Text
  decompress_block block kind size =
      if kind == none_type
      then some block
      else if kind == lz4_type
      then lz4 block size
      else if kind == zstd_type
      then zstd block
      else none

  -- Behind the checksum: the data of the block, and the rest of the source. The compressed size
  -- counts its own nine bytes of header and is a uint32.
  unfoldable pub read_block : Text → Option (Text × Text)
  read_block [] = none
  read_block (kind ∷ r) = do
    (compressed_size, r1) ← read_uint32 r
    (decompressed_size, r2) ← read_uint32 r1
    (block, r3) ← read_bytes (u32 (compressed_size + 2 ^ 32 - 9)) r2
    decompressed ← decompress_block block kind decompressed_size
    some (decompressed, r3)

  -- `readNextBlock`: a source without a byte is the end.
  unfoldable pub read_next_block : Text → Stop ⊎ (Text × Text)
  read_next_block [] = inl at_end
  read_next_block (b ∷ src) = elim (read_bytes 16 (b ∷ src)) [
    | none ↦ inl read_failed
    | some (checksum, r) ↦ elim (read_block r) [ none ↦ inl read_failed | some block ↦ inr block ]
  ]

  -- A call of `Read` with a buffer of `size` bytes.
  unfoldable pub read : (size : ℕ) → Reader → Stop ⊎ (Text × Reader)
  read size r =
      let copy = λ (t src : Text). inr (take size t, record { src = src; rest = drop size t }) in
      if is_empty r.rest
      then elim (read_next_block r.src) [ inl stop ↦ inl stop | inr (t, src) ↦ copy t src ]
      else copy r.rest r.src
