-- ===== src/Decompress/RoundTrip.antt =====
-- What was compressed is read back (chdecompressor/decompressor.go).
use chproxy.Base.{
  All, List, Option, Text, [], ap, append_assoc, arith, at_end, drop, drop-length-append, inl, inr,
  leb, length, length-append, length-drop, none, read_calls, read_calls-piece, read_calls-stop,
  refl, some, suc, sym, take, take-length-append, true, u32, zero, ℕ, ◌%◌, ◌++◌, ◌+◌, ◌-◌, ◌/◌, ◌<◌,
  ◌^◌, ◌∷◌, ◌≡◌, ◌≤◌,
}
use chproxy.Decompress.{
  new_reader, read_uint32, read_bytes, decompress_block, read_block, read_next_block, read,
}

-- A block of the format: its checksum, its kind, its data, and the compressed data.
pub record Block : Type 0 where
  pub checksum : Text
  pub kind : ℕ
  pub content : Text
  pub packed : Text

uint32_bytes : ℕ → Text
uint32_bytes n = n % 256 ∷ (n / 2 ^ 8) % 256 ∷ (n / 2 ^ 16) % 256 ∷ (n / 2 ^ 24) % 256 ∷ []

-- The block in the stream.
pub block_bytes : Block → Text
unfolding uint32_bytes
block_bytes b =
    b.checksum
    ++ (b.kind
        ∷ (uint32_bytes (length b.packed + 9) ++ (uint32_bytes (length b.content) ++ b.packed)))

unfoldable pub stream_of : List Block → Text
stream_of [] = []
stream_of (b ∷ bs) = block_bytes b ++ stream_of bs

unfoldable pub content_of : List Block → Text
content_of [] = []
content_of (b ∷ bs) = b.content ++ content_of bs

read_uint32-bytes :
    (n : ℕ) (r : Text) → n < 2 ^ 32 → read_uint32 (uint32_bytes n ++ r) ≡ some (n, r)
unfolding read_uint32 uint32_bytes
read_uint32-bytes n r h = ap (λ k. some (k, r)) (omega arith)

read_bytes-append : (t r : Text) → read_bytes (length t) (t ++ r) ≡ some (t, r)
unfolding read_bytes
read_bytes-append t r =
    let enough : leb (length t) (length (t ++ r)) ≡ true = ground (arith, length-append t r) in
    rw (enough, take-length-append t r, drop-length-append t r) refl

-- Calls that are enough for what the blocks hold: one for each byte, and one for each block.
unfoldable pub calls_for : List Block → ℕ
calls_for [] = 0
calls_for (b ∷ bs) = length b.content + 1 + calls_for bs

read_bytes-[] : read_bytes 16 [] ≡ none
unfolding read_bytes
read_bytes-[] = refl

module _ (lz4 : Text → ℕ → Option Text) (zstd : Text → Option Text) where
  -- Sizes that fit, a checksum of 16 bytes, and compressed data that the decoder turns into the
  -- content.
  pub record IsBlock (b : Block) : Type 0 where
    pub checksum_size : length b.checksum ≡ 16
    pub packed_size : length b.packed + 9 < 2 ^ 32
    pub content_size : length b.content < 2 ^ 32
    pub unpacks : decompress_block lz4 zstd b.packed b.kind (length b.content) ≡ some b.content

  read_block-bytes :
      (b : Block) (r : Text)
      → IsBlock b
      → read_block lz4 zstd (
          b.kind
          ∷ (uint32_bytes (length b.packed + 9)
              ++ (uint32_bytes (length b.content) ++ (b.packed ++ r))))
        ≡ some (b.content, r)
  unfolding read_block
  read_block-bytes b r h =
      let size : u32 (length b.packed + 9 + 2 ^ 32 - 9) ≡ length b.packed =
        omega (arith, h.packed_size) in
      rw
        (
          read_uint32-bytes (length b.packed + 9)
              (uint32_bytes (length b.content) ++ (b.packed ++ r)) h.packed_size,
          read_uint32-bytes (length b.content) (b.packed ++ r) h.content_size,
          size,
          read_bytes-append b.packed r,
          h.unpacks,
        )
        refl

  read_next_block-[] : read_next_block lz4 zstd [] ≡ inl at_end
  unfolding read_next_block
  read_next_block-[] = refl

  read_next_block-read :
      (t checksum block : Text) {x : Text × Text}
      → read_bytes 16 t ≡ some (checksum, block)
      → read_block lz4 zstd block ≡ some x
      → read_next_block lz4 zstd t ≡ inr x
  unfolding read_next_block
  read_next_block-read [] checksum block h g = ground (arith, h, read_bytes-[])
  read_next_block-read (b ∷ t) checksum block h g = ground (arith, h, g)

  read_next_block-bytes :
      (b : Block) (r : Text)
      → IsBlock b
      → read_next_block lz4 zstd (block_bytes b ++ r) ≡ inr (b.content, r)
  unfolding block_bytes
  read_next_block-bytes b r h =
      let block : Text =
        b.kind
        ∷ (uint32_bytes (length b.packed + 9)
            ++ (uint32_bytes (length b.content) ++ (b.packed ++ r))) in
      let split : block_bytes b ++ r ≡ b.checksum ++ block = append_assoc b.checksum _ r in
      let checksum : read_bytes 16 (b.checksum ++ block) ≡ some (b.checksum, block) =
        rw (sym h.checksum_size) (read_bytes-append b.checksum block) in
      rw split (
        read_next_block-read (b.checksum ++ block) b.checksum block checksum
          (read_block-bytes b r h))

  read-next :
      (size : ℕ) (src src' : Text) {t : Text}
      → read_next_block lz4 zstd src ≡ inr (t, src')
      → read lz4 zstd size (record { src = src; rest = [] })
        ≡ inr (take size t, record { src = src'; rest = drop size t })
  unfolding read
  read-next size src src' h = rw (read, h) refl

  read_calls-rest :
      (sizes : List ℕ) (t : Text) (bs : List Block)
      → All (λ size. 0 < size) sizes
      → All IsBlock bs
      → length t + calls_for bs + 1 ≤ length sizes
      → read_calls (read lz4 zstd) sizes (record { src = stream_of bs; rest = t })
        ≡ (t ++ content_of bs, some at_end)
  unfolding read stream_of content_of calls_for
  read_calls-rest [] t bs p v h = ground (arith, h)
  read_calls-rest (size ∷ sizes) [] [] p v h =
      read_calls-stop (read lz4 zstd) size sizes _ (rw (read, read_next_block-[]) refl)
  read_calls-rest (size ∷ sizes) [] (b ∷ bs) p v h =
      read_calls-piece (read lz4 zstd) size sizes (record { src = stream_of (b ∷ bs); rest = [] })
        (record { src = stream_of bs; rest = drop size b.content }) size b.content (content_of bs)
        (read-next size (stream_of (b ∷ bs)) (stream_of bs)
          (read_next_block-bytes b (stream_of bs) v.0))
        (read_calls-rest sizes (drop size b.content) bs p.1 v.1
          (omega (arith, h, length-drop size b.content)))
  read_calls-rest (zero ∷ sizes) (x ∷ t) bs p v h = ground (arith, p)
  read_calls-rest (suc size ∷ sizes) (x ∷ t) bs p v h =
      read_calls-piece (read lz4 zstd) (suc size) sizes
        (record { src = stream_of bs; rest = x ∷ t })
        (record { src = stream_of bs; rest = drop size t }) (suc size) (x ∷ t) (content_of bs) refl
        (read_calls-rest sizes (drop size t) bs p.1 v (omega (arith, h, length-drop size t)))

  -- A stream of valid blocks, read with buffers that are not empty, as often as their bytes and
  -- blocks and once more: the contents of the blocks in their order, whole, and then the end of
  -- the stream, whatever the sizes of the buffers.
  pub read_calls-stream_of :
      (sizes : List ℕ) (bs : List Block)
      → All (λ size. 0 < size) sizes
      → All IsBlock bs
      → calls_for bs < length sizes
      → read_calls (read lz4 zstd) sizes (new_reader (stream_of bs)) ≡ (content_of bs, some at_end)
  unfolding new_reader
  read_calls-stream_of sizes bs p v h = read_calls-rest sizes [] bs p v (omega (arith, h))
