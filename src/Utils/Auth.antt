-- ===== src/Utils/Auth.antt =====
-- utils.go: `getAuth`, `getSessionId` and `getSessionTimeout`.
use chproxy.Base.{
  Bool, Bool-cases, Option, Text, [], arith, at_least_one, atoi, bytes, if◌then◌else◌, inl, inr,
  is_empty, is_positive, leb, ltb, ltb→lt, magnitude, negative, negsuc, none, not, pos, positive,
  some, suc, zero, ℕ, ℤ, ◌<◌, ◌==◌, ◌^◌, ◌∷◌,
}
use chproxy.Http.{Request, get_value, get_header}

abbrev pub default_user : Text
default_user = bytes "default"

abbrev nonempty : Text → Bool
nonempty t = not (is_empty t)

url_auth : Request → Text × Text
url_auth req =
    let name = get_value (bytes "user") req.query in
    if nonempty name then (name, get_value (bytes "password") req.query) else (default_user, [])

abbrev or_basic : Option (Text × Text) → Text × Text → Text × Text
or_basic none rest = rest
or_basic (some auth) rest = auth

unfoldable pub get_auth : Request → Text × Text
unfolding url_auth
get_auth req =
    let name = get_header (bytes "X-ClickHouse-User") req.headers in
    if nonempty name
    then (name, get_header (bytes "X-ClickHouse-Key") req.headers)
    else or_basic req.basic_auth (url_auth req)

unfoldable pub get_session_id : Request → Text
get_session_id req = get_value (bytes "session_id") req.query

abbrev timeout_of : Option ℤ → ℕ
timeout_of none = 60
timeout_of (some n) = if is_positive n then magnitude n else 60

pub get_session_timeout : Request → ℕ
get_session_timeout req = timeout_of (atoi (get_value (bytes "session_timeout") req.query))

abbrev IsSmall : Option ℤ → Type 0
IsSmall (some (pos n)) = n < 2 ^ 63
IsSmall _ = Unit

positive-IsSmall : (o : Option ℕ) → IsSmall (positive o)
positive-IsSmall none = tt
positive-IsSmall (some n) = elim (Bool-cases (ltb n (2 ^ 63))) [
  | inl h ↦ rw h (ltb→lt n (2 ^ 63) h)
  | inr h ↦ rw h tt
]

negative-IsSmall : (o : Option ℕ) → IsSmall (negative o)
negative-IsSmall none = tt
negative-IsSmall (some zero) = omega arith
negative-IsSmall (some (suc n)) = elim (Bool-cases (leb (suc n) (2 ^ 63))) [
  | inl h ↦ rw h tt
  | inr h ↦ rw h tt
]

atoi-IsSmall : (t : Text) → IsSmall (atoi t)
unfolding atoi
atoi-IsSmall [] = tt
atoi-IsSmall (c ∷ t) = elim (Bool-cases (c == b'-')) [
  | inl h ↦ rw (h, atoi) (negative-IsSmall (at_least_one t))
  | inr h ↦ elim (Bool-cases (c == b'+')) [
    | inl h' ↦ rw (h, h', atoi) (positive-IsSmall (at_least_one t))
    | inr h' ↦ rw (h, h', atoi) (positive-IsSmall (at_least_one (c ∷ t)))
  ]
]

timeout_of-bounds : (o : Option ℤ) → IsSmall o → (0 < timeout_of o) × (timeout_of o < 2 ^ 63)
timeout_of-bounds none h = omega arith
timeout_of-bounds (some (pos n)) h = ground arith
timeout_of-bounds (some (negsuc n)) h = omega arith

-- The session timeout is a positive number below 2^63, whatever the client sends.
get_session_timeout-pos :
    (req : Request) → (0 < get_session_timeout req) × (get_session_timeout req < 2 ^ 63)
unfolding get_session_timeout
get_session_timeout-pos req =
    timeout_of-bounds _ (atoi-IsSmall (get_value (bytes "session_timeout") req.query))
