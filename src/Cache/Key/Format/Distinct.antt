-- ===== src/Cache/Key/Format/Distinct.antt =====
-- The text that `String` of cache/key.go hashes tells keys apart.
use chproxy.Base.{
  All, Bool-cases, List, Option, Text, [], ap, arith, digit, digits, drop, drop-length-append,
  false, if◌then◌else◌, inl, inr, itoa, length, ltb, none, parse_digits, refl, some, suc, sym, zero,
  ℕ, ◌%◌, ◌++◌, ◌/◌, ◌<◌, ◌==◌, ◌^◌, ◌∙◌, ◌∷◌, ◌≡◌, ◌≤◌,
}
use chproxy.Cache.Key.{Key}
use chproxy.Cache.Key.Format.{
  Field, quoted, decimal, fields, labels, show_field, show_fields, key_text,
}
use chproxy.Cache.Codec.Decimal.{parse_digits-itoa}

abbrev NoSemicolon : Text → Type 0
NoSemicolon t = All (λ c. (c == b';') ≡ false) t

digits-NoSemicolon : (f n : ℕ) (acc : Text) → NoSemicolon acc → NoSemicolon (digits 10 f n acc)
unfolding digits
digits-NoSemicolon zero n acc h = h
digits-NoSemicolon (suc f) n acc h = elim (Bool-cases (ltb n 10)) [
  | inl e ↦ rw (e, digits) (ground (arith, e), h)
  | inr e ↦
      rw (e, digits)
        (digits-NoSemicolon f (n / 10) (digit (n % 10) ∷ acc) (figure (n % 10) (omega arith), h))
]
  where
    figure : (d : ℕ) → d < 10 → (digit d == b';') ≡ false
    figure d h = ground (arith, h)

-- Up to the first semicolon, and the rest.
abbrev split_semicolon : Text → Text × Text
split_semicolon [] = ([], [])
split_semicolon (c ∷ t) =
    let (a, b) = split_semicolon t in if c == b';' then ([], c ∷ t) else (c ∷ a, b)

abbrev BeginsWithSemicolon : Text → Type 0
BeginsWithSemicolon [] = Unit
BeginsWithSemicolon (c ∷ t) = c ≡ b';'

split_semicolon-append :
    (t r : Text) → NoSemicolon t → BeginsWithSemicolon r → split_semicolon (t ++ r) ≡ (t, r)
split_semicolon-append [] [] h g = refl
split_semicolon-append [] (c ∷ r) h g = rw g refl
split_semicolon-append (c ∷ t) r h g = rw (h.0, split_semicolon-append t r h.1 g) refl

abbrev or_none {ℓ} : {A : Type ℓ} → A → Option A → A
or_none a none = a
or_none a (some b) = b

itoa-apart :
    (m n : ℕ) (a b : Text)
    → m ≤ 2 ^ 63
    → n ≤ 2 ^ 63
    → BeginsWithSemicolon a
    → BeginsWithSemicolon b
    → itoa m ++ a ≡ itoa n ++ b
    → (m ≡ n) × (a ≡ b)
unfolding itoa
itoa-apart m n a b hm hn ha hb e =
    let split =
      sym (split_semicolon-append (itoa m) a (digits-NoSemicolon 64 m [] tt) ha)
      ∙ ap split_semicolon e
      ∙ split_semicolon-append (itoa n) b (digits-NoSemicolon 64 n [] tt) hb in
    let same =
      sym (parse_digits-itoa m hm) ∙ ap (λ x. parse_digits 0 x.0) split ∙ parse_digits-itoa n hn in
    (ap (or_none m) same, ap (λ x. x.1) split)

append_cancel : (l a b : Text) → l ++ a ≡ l ++ b → a ≡ b
append_cancel l a b e =
    sym (drop-length-append l a) ∙ ap (drop (length l)) e ∙ drop-length-append l b

-- Fields of the same kinds, with numbers in range.
abbrev Similar : List Field → List Field → Type 0
Similar (quoted t ∷ fs) (quoted u ∷ gs) = Similar fs gs
Similar (decimal m ∷ fs) (decimal n ∷ gs) = (m ≤ 2 ^ 63) × (n ≤ 2 ^ 63) × Similar fs gs
Similar [] gs = gs ≡ []
Similar fs gs = fs ≡ gs

-- The numbers of a key are uint32 in the code, and its version is 5.
pub record InRange (k : Key) : Type 0 where
  pub version : k.version ≤ 2 ^ 63
  pub user_params_hash : k.user_params_hash ≤ 2 ^ 63
  pub query_params_hash : k.query_params_hash ≤ 2 ^ 63
  pub user_credential_hash : k.user_credential_hash ≤ 2 ^ 63

-- `%q` can be read back, whatever follows it (`strconv.QuotedPrefix` and `strconv.Unquote`).
abbrev pub IsQuoting : (quote : Text → Text) (unquote : Text → Option (Text × Text)) → Type 0
IsQuoting quote unquote = (t r : Text) → unquote (quote t ++ r) ≡ some (t, r)

module _ (quote : Text → Text) (unquote : Text → Option (Text × Text))
    (law : IsQuoting quote unquote) where
  quote-apart : (t u a b : Text) → quote t ++ a ≡ quote u ++ b → (t ≡ u) × (a ≡ b)
  quote-apart t u a b e =
      let same = sym (law t a) ∙ ap unquote e ∙ law u b in
      let read = ap (or_none (t, a)) same in (ap (λ x. x.0) read, ap (λ x. x.1) read)

  show_fields-begins :
      (ls : List Text) (fs : List Field) → BeginsWithSemicolon (show_fields quote ls fs)
  unfolding show_fields
  show_fields-begins [] fs = tt
  show_fields-begins (l ∷ ls) [] = tt
  show_fields-begins (l ∷ ls) (f ∷ fs) = refl

  show_fields-apart :
      (ls : List Text) (fs gs : List Field)
      → length fs ≤ length ls
      → Similar fs gs
      → show_fields quote ls fs ≡ show_fields quote ls gs
      → fs ≡ gs
  unfolding show_fields show_field
  show_fields-apart ls [] gs h k e = sym k
  show_fields-apart [] (f ∷ fs) gs h k e = ground (arith, h)
  show_fields-apart (l ∷ ls) (quoted t ∷ fs) [] h k e = k
  show_fields-apart (l ∷ ls) (decimal m ∷ fs) [] h k e = k
  show_fields-apart (l ∷ ls) (quoted t ∷ fs) (decimal n ∷ gs) h k e = k
  show_fields-apart (l ∷ ls) (decimal m ∷ fs) (quoted u ∷ gs) h k e = k
  show_fields-apart (l ∷ ls) (quoted t ∷ fs) (quoted u ∷ gs) h k e =
      let a = show_fields quote ls fs in
      let b = show_fields quote ls gs in
      let behind = append_cancel (b';' ∷ (b' ' ∷ l)) (quote t ++ a) (quote u ++ b) e in
      let (same, rest) = quote-apart t u a b behind in
      rw (same, show_fields-apart ls fs gs (omega (arith, h)) k rest) refl
  show_fields-apart (l ∷ ls) (decimal m ∷ fs) (decimal n ∷ gs) h k e =
      let a = show_fields quote ls fs in
      let b = show_fields quote ls gs in
      let behind = append_cancel (b';' ∷ (b' ' ∷ l)) (itoa m ++ a) (itoa n ++ b) e in
      let (same, rest) =
        itoa-apart m n a b k.0 k.1 (show_fields-begins ls fs) (show_fields-begins ls gs) behind in
      rw (same, show_fields-apart ls fs gs (omega (arith, h)) k.2 rest) refl

  key_of : Key → List Field → Key
  key_of k
        (decimal version
          ∷ quoted query
          ∷ quoted accept_encoding
          ∷ quoted default_format
          ∷ quoted database
          ∷ quoted compress
          ∷ quoted enable_http_compression
          ∷ quoted namespace
          ∷ quoted max_result_rows
          ∷ quoted extremes
          ∷ quoted result_overflow_mode
          ∷ decimal user_params_hash
          ∷ decimal query_params_hash
          ∷ decimal user_credential_hash
          ∷ []) =
      record {
        query = query;
        accept_encoding = accept_encoding;
        default_format = default_format;
        database = database;
        compress = compress;
        enable_http_compression = enable_http_compression;
        namespace = namespace;
        max_result_rows = max_result_rows;
        extremes = extremes;
        result_overflow_mode = result_overflow_mode;
        user_params_hash = user_params_hash;
        version = version;
        query_params_hash = query_params_hash;
        user_credential_hash = user_credential_hash;
      }
  key_of k fs = k

  -- Two keys whose numbers are in range are the same if the texts that are hashed for them are, where
  -- `%q` can be read back.
  pub key_text-distinct :
      (j k : Key) → InRange j → InRange k → key_text quote j ≡ key_text quote k → j ≡ k
  unfolding key_text fields show_field key_of
  key_text-distinct j k hj hk e =
      let rest = λ (k : Key). tail_of (fields k) in
      let behind = append_cancel (b'V' ∷ []) _ _ e in
      let (version, others) =
        itoa-apart j.version k.version (show_fields quote labels (rest j))
          (show_fields quote labels (rest k)) hj.version hk.version
          (show_fields-begins labels (rest j)) (show_fields-begins labels (rest k)) behind in
      let same =
        show_fields-apart labels (rest j) (rest k) (omega arith)
          (
            hj.user_params_hash,
            hk.user_params_hash,
            (
              hj.query_params_hash,
              hk.query_params_hash,
              (hj.user_credential_hash, hk.user_credential_hash, refl),
            ),
          )
          others in
      ap (λ v. key_of j (decimal v ∷ rest j)) version
      ∙ ap (λ fs. key_of j (decimal k.version ∷ fs)) same
    where
      tail_of : List Field → List Field
      tail_of [] = []
      tail_of (f ∷ fs) = fs
