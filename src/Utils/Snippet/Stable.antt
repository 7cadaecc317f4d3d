-- ===== src/Utils/Snippet/Stable.antt =====
-- The query snippet of utils.go is the beginning of the body, and asking for it again gives it again.
use chproxy.Base.{
  Bool, Bool-cases, List, Option, Text, [], ap, append-[], append_assoc, arith, bytes, false,
  if◌then◌else◌, inl, inr, leb, length, length-append, ltb, refl, suc, sym, take, zero, ℕ, ◌++◌,
  ◌<◌, ◌∙◌, ◌∷◌, ◌≡◌, ◌≤◌,
}
use chproxy.Utils.Query.{Decompressor, get_decompressor}
use chproxy.Http.{Request}
use chproxy.Utils.Snippet.{
  cache_read, cache_reads, discard, BodyReader, nil_body, plain_body, cached_body, show_data,
  get_query_snippet_from_body, get_query_snippet,
}

-- The first `n` bytes, marked if there may be more.
abbrev begin : (n : ℕ) → Text → Text
begin n t = if ltb (length t) n then t else take n t ++ bytes "..."

abbrev pub beginning : Text → Text
beginning t = begin 1024 t

abbrev pub concat : List Text → Text
concat [] = []
concat (p ∷ ps) = p ++ concat ps

take-append_le : (n : ℕ) (t p : Text) → n ≤ length t → take n (t ++ p) ≡ take n t
take-append_le zero t p h = refl
take-append_le (suc n) [] p h = ground arith
take-append_le (suc n) (x ∷ t) p h = ap (◌∷◌ x) (take-append_le n t p (omega arith))

length-take : (n : ℕ) (t : Text) → n ≤ length t → length (take n t) ≡ n
length-take zero t h = refl
length-take (suc n) [] h = ground arith
length-take (suc n) (x ∷ t) h = omega (arith, length-take n t (omega arith))

begin-short : (n : ℕ) (t : Text) → length t < n → begin n t ≡ t
begin-short n t h = ground arith

begin-long : (n : ℕ) (t : Text) → n ≤ length t → begin n t ≡ take n t ++ bytes "..."
begin-long n t h = ground arith

length-begin : (n : ℕ) (t : Text) → n ≤ length t → n ≤ length (begin n t)
length-begin n t h =
    rw (begin-long n t h) (omega (arith, length-append (take n t) (bytes "..."), length-take n t h))

begin-begin : (n : ℕ) (t : Text) → begin n (begin n t) ≡ begin n t
begin-begin n t = elim (Bool-cases (ltb (length t) n)) [
  | inl h ↦ ap (begin n) (begin-short n t (ground (arith, h)))
  | inr e ↦
      let h : n ≤ length t = ground (arith, e) in
      let same : take n (begin n t) ≡ take n t =
        ap (take n) (begin-long n t h)
        ∙ take-append_le n (take n t) (bytes "...") (omega (arith, length-take n t h))
        ∙ take-take n t in
      begin-long n (begin n t) (length-begin n t h)
      ∙ ap (λ x. x ++ bytes "...") same
      ∙ sym (begin-long n t h)
]
  where
    take-take : (n : ℕ) (t : Text) → take n (take n t) ≡ take n t
    take-take zero t = refl
    take-take (suc n) [] = refl
    take-take (suc n) (x ∷ t) = ap (◌∷◌ x) (take-take n t)

le-ltb : (m n : ℕ) → n ≤ m → ltb m n ≡ false
le-ltb m n h = ground arith

begin-if :
    (n : ℕ) (t : Text) → (if leb n (length t) then take n t ++ bytes "..." else t) ≡ begin n t
begin-if n t = ground arith

cache_read-begin : (p t : Text) → cache_read p (beginning t) ≡ beginning (t ++ p)
unfolding cache_read
cache_read-begin p t = elim (Bool-cases (ltb (length t) 1024)) [
  | inl e ↦
      let whole = begin-short 1024 t (ground (arith, e)) in
      rw (whole, e, cache_read) (begin-if 1024 (t ++ p))
  | inr e ↦
      let h : 1024 ≤ length t = ground (arith, e) in
      let full : ltb (length (beginning t)) 1024 ≡ false =
        le-ltb (length (beginning t)) 1024 (length-begin 1024 t h) in
      rw (cache_read, full)
        (begin-long 1024 t h
          ∙ ap (λ x. x ++ bytes "...") (sym (take-append_le 1024 t p h))
          ∙ sym (begin-long 1024 (t ++ p) (omega (arith, h, length-append t p))))
]

cache_reads-begin :
    (ps : List Text) (t : Text) → cache_reads ps (beginning t) ≡ beginning (t ++ concat ps)
unfolding cache_reads
cache_reads-begin [] t = ap beginning (sym (append-[] t))
cache_reads-begin (p ∷ ps) t =
    ap (cache_reads ps) (cache_read-begin p t)
    ∙ cache_reads-begin ps (t ++ p)
    ∙ ap beginning (append_assoc t p (concat ps))

-- Bytes that were cached from the beginning of a body.
abbrev pub IsCached : BodyReader → Type 0
IsCached nil_body = Unit
IsCached (plain_body ps) = Unit
IsCached (cached_body crc) = (t : Text) × (crc.b ≡ beginning t)

-- The bytes that are shown of a body, before they are decompressed.
abbrev pub shown : BodyReader → Text
shown nil_body = []
shown (plain_body ps) = beginning (concat ps)
shown (cached_body crc) = cache_reads crc.rest crc.b

shown-beginning : (r : BodyReader) → IsCached r → beginning (shown r) ≡ shown r
shown-beginning nil_body h = refl
shown-beginning (plain_body ps) h = begin-begin 1024 (concat ps)
shown-beginning (cached_body crc) (t, e) =
    let whole = ap (cache_reads crc.rest) e ∙ cache_reads-begin crc.rest t in
    ap beginning whole ∙ begin-begin 1024 (t ++ concat crc.rest) ∙ sym whole

cache_reads-plain : (ps : List Text) → cache_reads ps [] ≡ beginning (concat ps)
cache_reads-plain ps = cache_reads-begin ps []

-- Reading again what was put in the place of the body.
reread :
    (cut : Text → List Text) (t : Text)
    → concat (cut t) ≡ t
    → beginning t ≡ t
    → cache_reads (cut t) [] ≡ t
reread cut t e h = cache_reads-plain (cut t) ∙ ap beginning e ∙ h

module _ (cut : Text → List Text) (decompress : Decompressor → Text → Text × Bool) where
  from_body-again :
      (u : Option Decompressor) (r : BodyReader)
      → IsCached r
      → ((t : Text) → concat (cut t) ≡ t)
      → let snippet = get_query_snippet_from_body cut decompress u in
        (snippet (snippet r).1).0 ≡ (snippet r).0
  unfolding get_query_snippet_from_body discard
  from_body-again u nil_body h e = refl
  from_body-again u (plain_body ps) h e =
      let t = cache_reads ps [] in
      let whole = cache_reads-plain ps in
      let same = ap beginning whole ∙ begin-begin 1024 (concat ps) ∙ sym whole in
      ap (show_data cut decompress u) (reread cut t (e t) same)
  from_body-again u (cached_body crc) h e =
      let t = cache_reads crc.rest crc.b in
      ap (show_data cut decompress u) (reread cut t (e t) (shown-beginning (cached_body crc) h))

  -- A request whose body was wrapped before or not, however its reader cuts it: asking for the
  -- query's snippet a second time, of the body that the first time has put in place, gives the same.
  get_query_snippet-again :
      (req : Request) (r : BodyReader)
      → IsCached r
      → ((t : Text) → concat (cut t) ≡ t)
      → let snippet = get_query_snippet cut decompress req in
        (snippet (snippet r).1).0 ≡ (snippet r).0
  unfolding get_query_snippet
  get_query_snippet-again req r h e =
      rw (from_body-again (get_decompressor req) r h e, get_query_snippet) refl

  -- The body that is put in the place of a body that was not wrapped is its first 1024 bytes with
  -- three dots, if it has as many, and else the body; the snippet shows the same bytes, decompressed
  -- where they can be.
  from_body-restored :
      (u : Option Decompressor) (ps : List Text)
      → get_query_snippet_from_body cut decompress u (plain_body ps) ≡ (
        show_data cut decompress u (beginning (concat ps)),
        plain_body (cut (beginning (concat ps))),
      )
  unfolding get_query_snippet_from_body discard
  from_body-restored u ps =
      ap (λ t. (show_data cut decompress u t, plain_body (cut t))) (cache_reads-plain ps)
