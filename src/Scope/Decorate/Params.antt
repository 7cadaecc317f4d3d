-- ===== src/Scope/Decorate/Params.antt =====
-- Which parameters of a client reach ClickHouse (scope.go, `decorateRequest`).
use chproxy.Base.{
  Bool, Bool-cases, List, Text, [], any, arith, bytes, hex08, if◌then◌else◌, inl, inr, is_some,
  itoa, lookup, lookup-insert, map, text_eq, text_eq_iff, text_eq→eq, true, ◌||◌, ◌∷◌, ◌≡◌, ◌⊎◌,
}
use chproxy.Http.{Request, Values, get_value, set_value}
use chproxy.Scope.Types.{Scope}
use chproxy.Scope.Decorate.{
  allowed_params, is_param, is_external_data_param, set_user_params, keep_allowed, keep_matching,
  keys, decorate_post_request, user_params, purify_params, set_nonempty, is_multipart,
}

abbrev pub is_one_of : Text → List Text → Bool
is_one_of k ks = any (λ j. text_eq j k) ks

-- What the loops before the last two settings leave.
abbrev pub FromLoops : Scope → Request → Text → Type 0
FromLoops s req k =
    (is_one_of k (map (λ p. p.0) (user_params s.user.params)) ≡ true)
    ⊎ (is_one_of k allowed_params ≡ true)
    ⊎ (is_param k ≡ true)
    ⊎ ((text_eq req.method (bytes "POST") ≡ true)
        × (is_multipart req ≡ true)
        × (is_external_data_param k ≡ true))

-- Where a parameter that is sent may come from.
abbrev pub IsForwarded : Scope → Request → Text → Type 0
IsForwarded s req k = FromLoops s req k ⊎ (k ≡ bytes "query_id") ⊎ (k ≡ bytes "session_timeout")

lookup-set_value :
    (j k v : Text) (vs : Values)
    → is_some (lookup j (set_value k v vs)) ≡ (text_eq k j || is_some (lookup j vs))
unfolding set_value
lookup-set_value j k v vs = ground (arith, lookup-insert j k (v ∷ []) vs)

abbrev has : Text → Values → Bool
has j vs = is_some (lookup j vs)

set_user_params-has :
    (j : Text) (kvs : List (Text × Text)) (vs : Values)
    → has j (set_user_params kvs vs) ≡ true
    → (is_one_of j (map (λ p. p.0) kvs) ≡ true) ⊎ (has j vs ≡ true)
unfolding set_user_params
set_user_params-has j [] vs h = inr h
set_user_params-has j ((k, v) ∷ kvs) vs h =
    ground (arith, set_user_params-has j kvs (set_value k v vs) h, lookup-set_value j k v vs)

set_nonempty-has :
    (j k v : Text) (vs : Values)
    → has j (set_nonempty k v vs) ≡ true
    → (text_eq k j ≡ true) ⊎ (has j vs ≡ true)
set_nonempty-has j k [] vs h = inr h
set_nonempty-has j k (c ∷ v) vs h = ground (arith, lookup-set_value j k (c ∷ v) vs)

keep_allowed-has :
    (j : Text) (ks : List Text) (orig vs : Values)
    → has j (keep_allowed ks orig vs) ≡ true
    → (is_one_of j ks ≡ true) ⊎ (has j vs ≡ true)
unfolding keep_allowed
keep_allowed-has j [] orig vs h = inr h
keep_allowed-has j (k ∷ ks) orig vs h =
    let vs' = set_nonempty k (get_value k orig) vs in
    ground (arith, keep_allowed-has j ks orig vs' h, set_nonempty-has j k (get_value k orig) vs)

keep_matching-has :
    (p : Text → Bool) (j : Text) (ks : List Text) (orig vs : Values)
    → has j (keep_matching p ks orig vs) ≡ true
    → (p j ≡ true) ⊎ (has j vs ≡ true)
unfolding keep_matching
keep_matching-has p j [] orig vs h = inr h
keep_matching-has p j (k ∷ ks) orig vs h = elim (Bool-cases (p k)) [
  | inl fits ↦
      let set = set_value k (get_value k orig) vs in
      let rest = keep_matching-has p j ks orig set (rw (fits, keep_matching) at h) in
      elim rest [
        | inl a ↦ inl a
        | inr b ↦ elim (Bool-cases (text_eq k j)) [
          | inl e ↦ inl (rw (← text_eq→eq k j e) fits)
          | inr e ↦ inr (ground (arith, lookup-set_value j k (get_value k orig) vs))
        ]
      ]
  | inr not_fits ↦ keep_matching-has p j ks orig vs (rw (not_fits, keep_matching) at h)
]

decorate_post_request-has :
    (j : Text) (req : Request) (orig vs : Values)
    → has j (decorate_post_request req orig vs).0 ≡ true
    → ((is_multipart req ≡ true) × (is_external_data_param j ≡ true)) ⊎ (has j vs ≡ true)
unfolding decorate_post_request
decorate_post_request-has j req orig vs h =
    ground (arith, keep_matching-has is_external_data_param j (keys orig) orig vs)

module _ (s : Scope) (req : Request) where
  abbrev pub first : Values
  first = set_user_params (user_params s.user.params) []

  abbrev pub second : Values
  second = keep_allowed allowed_params req.query first

  abbrev pub third : Values
  third = keep_matching is_param (keys req.query) req.query second

  third-FromLoops : (k : Text) → has k third ≡ true → FromLoops s req k
  unfolding lookup
  third-FromLoops k h = ground (
    arith,
    keep_matching-has is_param k (keys req.query) req.query second h,
    keep_allowed-has k allowed_params req.query first,
    set_user_params-has k (user_params s.user.params) [],
  )

  abbrev pub fourth : Values
  fourth =
      (if text_eq req.method (bytes "POST")
        then decorate_post_request req req.query third
        else (third, req.query)).0

  fourth-FromLoops : (k : Text) → has k fourth ≡ true → FromLoops s req k
  fourth-FromLoops k h = elim (Bool-cases (text_eq req.method (bytes "POST"))) [
    | inr other ↦ third-FromLoops k (rw (other, fourth) at h)
    | inl post ↦ elim (decorate_post_request-has k req req.query third (rw (post, fourth) at h)) [
      | inl (multi, ext) ↦ inr (inr (inr (post, multi, ext)))
      | inr b ↦ third-FromLoops k b
    ]
  ]

  -- Setting a key last adds no other key.
  has-set_value :
      (j k v : Text) (vs : Values) → has j (set_value k v vs) ≡ true → (has j vs ≡ true) ⊎ (j ≡ k)
  has-set_value j k v vs h = ground (arith, lookup-set_value j k v vs, text_eq_iff k j)

-- Every parameter that is sent to ClickHouse is one that the configuration sets for the user, one of
-- the list of allowed ones, one with the prefix param_, in a POST request of
-- multipart/form-data one with the suffix _types, _structure or _format, or query_id or
-- session_timeout.
pub purify_params-IsForwarded :
    (s : Scope) (req : Request) (k : Text)
    → is_some (lookup k (purify_params s req).0) ≡ true
    → IsForwarded s req k
unfolding purify_params
purify_params-IsForwarded s req k h =
    elim (has-set_value s req k (bytes "session_timeout") (itoa s.session_timeout) _ h) [
      | inr e ↦ inr (inr e)
      | inl h' ↦ elim (has-set_value s req k (bytes "query_id") (hex08 s.id) (fourth s req) h') [
        | inr e ↦ inr (inl e)
        | inl h'' ↦ inl (fourth-FromLoops s req k h'')
      ]
    ]
