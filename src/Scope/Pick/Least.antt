-- ===== src/Scope/Pick/Least.antt =====
-- What the scan of scope.go's `getReplica` and `getHost` returns.
use chproxy.Base.{
  Bool, Bool-cases, List, arith, false, get_elem?, get_elem?-lt, if◌then◌else◌, inc32, inl, inr,
  length, lt-get_elem?, ltb, max_u32, refl, some, subst, suc, true, u32, zero, ℕ, ℕ_discrete, ◌%◌,
  ◌+◌, ◌-◌, ◌<◌, ◌==◌, ◌^◌, ◌≡◌, ◌≤◌,
}
use chproxy.Scope.Pick.{scan, pick_from, pick}

module _ {ℓ} {A : Type ℓ} (is_active : A → Bool) (load : A → ℕ) (items : List A) where
  -- The item at `c` is there, and if some active item has less than the greatest load, it is
  -- active and its load is not above that one's.
  abbrev pub IsLeast : ℕ → Type ℓ
  IsLeast c =
      (c < length items)
      × ((j : ℕ) (y : A)
          → get_elem? items j ≡ some y
          → is_active y ≡ true
          → load y < max_u32
          → (x : A) × (get_elem? items c ≡ some x) × (is_active x ≡ true) × (load x ≤ load y))

  -- Between two rounds: the item so far is there, its load is known unless it is inactive, and
  -- no active item seen so far has a lower one.
  record Inv (idx i best reqs : ℕ) : Type ℓ where
    at_best : A
    in_range : get_elem? items best ≡ some at_best
    known : reqs < max_u32 → (is_active at_best ≡ true) × (load at_best ≡ reqs)
    least :
        (k : ℕ) (y : A)
        → k < i
        → get_elem? items ((idx + k) % length items) ≡ some y
        → is_active y ≡ true
        → reqs ≤ load y

  -- Every place is some number of steps after `idx`.
  offset : (n idx j : ℕ) → idx < n → j < n → (k : ℕ) × (k < n) × ((idx + k) % n ≡ j)
  offset n idx j hi hj = ((j + n - idx) % n, grind arith, grind arith)

  Inv-IsLeast :
      {idx best reqs : ℕ} → idx < length items → Inv idx (length items) best reqs → IsLeast best
  Inv-IsLeast {idx} {best} {reqs} hi v = (lt-get_elem? items best v.in_range, low)
    where
      low :
          (j : ℕ) (y : A)
          → get_elem? items j ≡ some y
          → is_active y ≡ true
          → load y < max_u32
          → (x : A) × (get_elem? items best ≡ some x) × (is_active x ≡ true) × (load x ≤ load y)
      low j y e a l =
          let (k, hk, ek) = offset (length items) idx j hi (lt-get_elem? items j e) in
          let le : reqs ≤ load y = v.least k y hk (rw ek e) a in
          let (act, ld) = v.known (omega arith) in (v.at_best, v.in_range, act, omega arith)

  zero-IsLeast :
      (c : ℕ) (x : A) → get_elem? items c ≡ some x → is_active x ≡ true → load x ≡ 0 → IsLeast c
  zero-IsLeast c x e a z = (lt-get_elem? items c e, λ j y _ _ _. (x, e, a, omega arith))

  -- A round that keeps what it had: the item looked at is inactive or not less loaded.
  keep-Inv :
      {idx i best reqs : ℕ} (t : ℕ) (x : A)
      → t ≡ (idx + i) % length items
      → get_elem? items t ≡ some x
      → (is_active x ≡ true → reqs ≤ load x)
      → Inv idx i best reqs
      → Inv idx (i + 1) best reqs
  keep-Inv {idx} {i} {best} {reqs} t x et e h v = record {
    at_best = v.at_best;
    in_range = v.in_range;
    known = v.known;
    least = λ k y hk ek a. elim (ℕ_discrete k i) [
      | yes p ↦ ground (arith, h)
      | no p ↦ v.least k y (omega arith) ek a
    ];
  }

  -- A round that takes the item looked at.
  take-Inv :
      {idx i best reqs : ℕ} (t : ℕ) (x : A)
      → t ≡ (idx + i) % length items
      → get_elem? items t ≡ some x
      → is_active x ≡ true
      → load x < reqs
      → Inv idx i best reqs
      → Inv idx (i + 1) t (load x)
  take-Inv {idx} {i} {best} {reqs} t x et e a l v = record {
    at_best = x;
    in_range = e;
    known = λ _. (a, refl);
    least = λ k y hk ek ay. elim (ℕ_discrete k i) [
      | yes p ↦ ground arith
      | no p ↦ let le : reqs ≤ load y = v.least k y (omega arith) ek ay in omega arith
    ];
  }

  module _ (small : length items ≤ 2 ^ 31) where
    index_lem :
        (idx i : ℕ)
        → idx < length items
        → i < length items
        → u32 (idx + i) % u32 (length items) ≡ (idx + i) % length items
    index_lem idx i hi h =
        let e : u32 (idx + i) ≡ idx + i = omega arith in
        let e' : u32 (length items) ≡ length items = omega arith in rw (e, e')

    scan-IsLeast :
        (idx k i best reqs : ℕ)
        → idx < length items
        → i + k ≡ length items
        → Inv idx i best reqs
        → (c : ℕ) × (scan is_active load items idx k i best reqs ≡ some c) × IsLeast c
    unfolding scan
    scan-IsLeast idx zero i best reqs hi e v =
        (best, refl, Inv-IsLeast hi (subst (λ n. Inv idx n best reqs) (omega arith) v))
    scan-IsLeast idx (suc k) i best reqs hi e v =
        let t = u32 (idx + i) % u32 (length items) in
        let et : t ≡ (idx + i) % length items = index_lem idx i hi (omega arith) in
        let (x, ex) = get_elem?-lt items t (rw et (grind arith)) in
        elim (Bool-cases (is_active x)) [
          | inr off ↦
              rw (ex, off, scan)
                (scan-IsLeast idx k (i + 1) best reqs hi (omega arith)
                  (keep-Inv t x et ex (λ on. cc) v))
          | inl on ↦ elim (Bool-cases (load x == 0)) [
            | inl z ↦ rw (ex, on, z, scan) (t, refl, zero-IsLeast t x ex on (ground arith))
            | inr nz ↦ elim (Bool-cases (ltb (load x) reqs)) [
              | inl less ↦
                  rw (ex, on, nz, less, scan)
                    (scan-IsLeast idx k (i + 1) t (load x) hi (omega arith)
                      (take-Inv t x et ex on (ground arith) v))
              | inr more ↦
                  rw (ex, on, nz, more, scan)
                    (scan-IsLeast idx k (i + 1) best reqs hi (omega arith)
                      (keep-Inv t x et ex (λ _. ground arith) v))
            ]
          ]
        ]

    first-Inv :
        (idx : ℕ) (x : A)
        → get_elem? items idx ≡ some x
        → Inv idx 1 idx (if is_active x then load x else max_u32)
    first-Inv idx x e = elim (Bool-cases (is_active x)) [
      | inl on ↦ rw on (record {
        at_best = x;
        in_range = e;
        known = λ _. (on, refl);
        least = λ k y hk ek a.
            let at : get_elem? items idx ≡ some y =
              subst (λ j. get_elem? items j ≡ some y) (near k hk) ek in
            ground arith;
      })
      | inr off ↦ rw off (record {
        at_best = x;
        in_range = e;
        known = λ h. absurd (omega arith);
        least = λ k y hk ek a.
            let at : get_elem? items idx ≡ some y =
              subst (λ j. get_elem? items j ≡ some y) (near k hk) ek in
            ground arith;
      })
    ]
      where
        near : (k : ℕ) → k < 1 → (idx + k) % length items ≡ idx
        near k hk = let h = lt-get_elem? items idx e in grind arith

    pick_from-IsLeast :
        (idx : ℕ) (x : A)
        → get_elem? items idx ≡ some x
        → (c : ℕ) × (pick_from is_active load items (length items) idx x ≡ some c) × IsLeast c
    unfolding pick_from
    pick_from-IsLeast idx x e =
        let hi = lt-get_elem? items idx e in
        let reqs = if is_active x then load x else max_u32 in
        elim (Bool-cases (reqs == 0)) [
          | inl z ↦
              rw (z, pick_from) (idx, refl, zero-IsLeast idx x e (ground arith) (ground arith))
          | inr nz ↦
              rw (nz, pick_from)
                (scan-IsLeast idx (length items - 1) 1 idx reqs hi (omega arith)
                  (first-Inv idx x e))
        ]

    -- One item is taken as it is; it has the least load of all the active ones.
    only-IsLeast : length items ≡ 1 → (x : A) → get_elem? items 0 ≡ some x → IsLeast 0
    only-IsLeast one x e = (
      omega arith,
      λ j y ej a _.
          let z : j ≡ 0 = omega (arith, lt-get_elem? items j ej) in
          let at : get_elem? items 0 ≡ some y = subst (λ j. get_elem? items j ≡ some y) z ej in
          ground arith,
    )

    pub pick-IsLeast :
        (next : ℕ)
        → 0 < length items
        → (c : ℕ) × (pick is_active load items next ≡ some (c, inc32 next)) × IsLeast c
    unfolding pick
    pick-IsLeast next h = elim (Bool-cases (length items == 1)) [
      | inl one ↦
          let (x, ex) = get_elem?-lt items 0 h in
          let e : u32 (length items) ≡ length items = omega arith in
          (0, rw (e, one, pick), only-IsLeast (ground arith) x ex)
      | inr many ↦
          let e : u32 (length items) ≡ length items = omega arith in
          let some_items : (length items == 0) ≡ false = ground arith in
          let i = inc32 next % length items in
          let (x, ex) = get_elem?-lt items i (grind arith) in
          let (c, ec, least) = pick_from-IsLeast i x ex in
          (c, rw (e, many, some_items, ex, ec, pick), least)
    ]
