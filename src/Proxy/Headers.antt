-- ===== src/Proxy/Headers.antt =====
-- proxy_handler.go: the client's address from the headers of a proxy in front. `host_of` is
-- `net.SplitHostPort` (the host, or an error), `is_ip` whether `net.ParseIP` reads a text; `trim` and
-- `to_lower` are `strings.TrimSpace` and `strings.ToLower`.
use chproxy.Base.{
  Bool, Bool-cases, List, Option, Text, [], arith, bytes, drop, false, has_prefix, if◌then◌else◌,
  inl, inr, is_empty, none, not, refl, some, subst, true, ◌&&◌, ◌++◌, ◌==◌, ◌||◌, ◌∷◌, ◌≡◌, ◌⊎◌,
}
use chproxy.Setup.Types.{ProxyHeaderConfig}
use chproxy.Http.{Request, get_header}

-- The part before the first comma.
unfoldable pub extract_first_match_from_ip_list : Text → Text
extract_first_match_from_ip_list [] = []
extract_first_match_from_ip_list (c ∷ t) =
    let rest = extract_first_match_from_ip_list t in if c == b',' then [] else c ∷ rest

-- The parts between the semicolons.
unfoldable pub split_semicolons : (part : Text) → Text → List Text
split_semicolons part [] = part ∷ []
split_semicolons part (c ∷ t) =
    let longer = split_semicolons (part ++ (c ∷ [])) t in
    let next = split_semicolons [] t in if c == b';' then part ∷ next else longer

-- Quotes and brackets go.
unfoldable pub without_brackets : Text → Text
without_brackets [] = []
without_brackets (c ∷ t) =
    let rest = without_brackets t in if c == 34 || (c == b'[' || c == b']') then rest else c ∷ rest

module _ (trim to_lower : Text → Text) where
  unfoldable pub first_for : List Text → Text
  unfolding extract_first_match_from_ip_list without_brackets
  first_for [] = []
  first_for (part ∷ parts) =
      let rest = first_for parts in
      let trimmed = trim part in
      if has_prefix (to_lower trimmed) (bytes "for=")
      then without_brackets (drop 4 (extract_first_match_from_ip_list trimmed))
      else rest

  unfoldable pub parse_forwarded_header : Text → Text
  unfolding first_for split_semicolons
  parse_forwarded_header fwd = first_for (split_semicolons [] fwd)

  unfoldable pub parse_default_proxy_headers : Request → Text
  unfolding extract_first_match_from_ip_list parse_forwarded_header
  parse_default_proxy_headers r =
      let forwarded_for = get_header (bytes "X-Forwarded-For") r.headers in
      let real_ip = get_header (bytes "X-Real-Ip") r.headers in
      let forwarded = get_header (bytes "Forwarded") r.headers in
      if not (is_empty forwarded_for)
      then extract_first_match_from_ip_list forwarded_for
      else if not (is_empty real_ip)
      then extract_first_match_from_ip_list real_ip
      else if not (is_empty forwarded)
      then parse_forwarded_header forwarded
      else []

  module _ (host_of : Text → Option Text) (is_ip : Text → Bool) where
    unfoldable pub is_valid_addr : Text → Bool
    is_valid_addr addr =
        if is_empty addr
        then false
        else elim (host_of addr) [ none ↦ is_ip addr | some ip ↦ is_ip ip ]

    unfoldable pub get_remote_addr : ProxyHeaderConfig → Request → Text
    unfolding parse_default_proxy_headers is_valid_addr
    get_remote_addr p r =
        let addr =
          if is_empty p.header
          then parse_default_proxy_headers r
          else get_header p.header r.headers in
        if p.enable && is_valid_addr addr then addr else r.remote_addr

    -- The address that the headers name: the configured header if there is one, and without it the
    -- first of the list in X-Forwarded-For, or else in X-Real-Ip, or else what Forwarded gives, of
    -- these the first one that is there.
    abbrev pub IsNamed : ProxyHeaderConfig → Request → (addr : Text) → Type 0
    IsNamed p r addr =
        let header = λ (name : Text). get_header name r.headers in
        let forwarded_for = header (bytes "X-Forwarded-For") in
        let real_ip = header (bytes "X-Real-Ip") in
        let forwarded = header (bytes "Forwarded") in
        ((is_empty p.header ≡ false) × (addr ≡ header p.header))
        ⊎ ((is_empty p.header ≡ true)
            × (is_empty forwarded_for ≡ false)
            × (addr ≡ extract_first_match_from_ip_list forwarded_for))
        ⊎ ((is_empty p.header ≡ true)
            × (is_empty forwarded_for ≡ true)
            × (is_empty real_ip ≡ false)
            × (addr ≡ extract_first_match_from_ip_list real_ip))
        ⊎ ((is_empty p.header ≡ true)
            × (is_empty forwarded_for ≡ true)
            × (is_empty real_ip ≡ true)
            × (is_empty forwarded ≡ false)
            × (addr ≡ parse_forwarded_header forwarded))
        ⊎ ((is_empty p.header ≡ true)
            × (is_empty forwarded_for ≡ true)
            × (is_empty real_ip ≡ true)
            × (is_empty forwarded ≡ true)
            × (addr ≡ []))

    named :
        (p : ProxyHeaderConfig) (r : Request)
        → IsNamed p r (
            if is_empty p.header
            then parse_default_proxy_headers r
            else get_header p.header r.headers)
    unfolding parse_default_proxy_headers
    named p r = ground arith

    -- The address is the one that the headers name where they are to be read and it is a valid one.
    -- Else it is the one of the connection: the headers are not to be read, or name no valid one.
    pub get_remote_addr-source :
        (p : ProxyHeaderConfig) (r : Request)
        → let addr = get_remote_addr p r in
          ((p.enable ≡ true) × (is_valid_addr addr ≡ true) × IsNamed p r addr)
          ⊎ ((addr ≡ r.remote_addr)
              × ((p.enable ≡ false) ⊎ ((a : Text) × IsNamed p r a × (is_valid_addr a ≡ false))))
    unfolding get_remote_addr
    get_remote_addr-source p r =
        let a =
          if is_empty p.header
          then parse_default_proxy_headers r
          else get_header p.header r.headers in
        elim (Bool-cases p.enable) [
          | inr off ↦ inr (rw (off, get_remote_addr) refl, inl off)
          | inl on ↦ elim (Bool-cases (is_valid_addr a)) [
            | inl good ↦
                let same : a ≡ get_remote_addr p r = rw (on, good, get_remote_addr) refl in
                inl (
                  on,
                  subst (λ x. is_valid_addr x ≡ true) same good,
                  subst (IsNamed p r) same (named p r),
                )
            | inr bad ↦ inr (rw (on, bad, get_remote_addr) refl, inr (a, named p r, bad))
          ]
        ]
