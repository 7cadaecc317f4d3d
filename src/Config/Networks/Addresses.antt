-- ===== src/Config/Networks/Addresses.antt =====
-- `Contains` of config/types.go, asked about the addresses of proxy_handler.go.
use chproxy.Base.{
  Bool, List, Option, Option-cases, Text, [], any, arith, inl, inr, is_empty, is_some, none, refl,
  some, true, ◌||◌, ◌∷◌, ◌≡◌,
}
use chproxy.Config.Networks.{contains_addr, host_or_addr}
use chproxy.Setup.Types.{IpNet, ProxyHeaderConfig}
use chproxy.Proxy.Headers.{is_valid_addr, get_remote_addr}
use chproxy.Http.{Request}

module _ {Ip : Type 0} (host_of : Text → Option Text) (parse_ip : Text → Option Ip)
    (holds : IpNet → Ip → Bool) (trim to_lower : Text → Text) where
  abbrev is_ip : Text → Bool
  is_ip t = is_some (parse_ip t)

  -- The answer about a list of networks for the host of an address; without networks all are
  -- held.
  abbrev pub IsAnswered : List IpNet → (addr : Text) → Type 0
  IsAnswered ns addr =
      (ip : Ip) × (parse_ip (host_or_addr (host_of addr) addr) ≡ some ip)
      × (contains_addr host_of parse_ip holds ns addr
          ≡ some (is_empty ns || any (λ net. holds net ip) ns))

  valid-host :
      (addr : Text)
      → is_valid_addr trim to_lower host_of is_ip addr ≡ true
      → is_ip (host_or_addr (host_of addr) addr) ≡ true
  unfolding is_valid_addr
  valid-host addr h = elim (Option-cases (host_of addr)) [
    | inl e ↦ ground (arith, e, h)
    | inr (host, e) ↦ ground (arith, e, h)
  ]

  -- The host of a valid address is read.
  valid-parsed :
      (addr : Text)
      → is_valid_addr trim to_lower host_of is_ip addr ≡ true
      → (ip : Ip) × (parse_ip (host_or_addr (host_of addr) addr) ≡ some ip)
  valid-parsed addr h = some_there (parse_ip (host_or_addr (host_of addr) addr)) (valid-host addr h)
    where
      some_there : (o : Option Ip) → is_some o ≡ true → (ip : Ip) × (o ≡ some ip)
      some_there none h = ground (arith, h)
      some_there (some ip) h = (ip, refl)

  valid-IsAnswered :
      (ns : List IpNet) (addr : Text)
      → is_valid_addr trim to_lower host_of is_ip addr ≡ true
      → IsAnswered ns addr
  unfolding contains_addr
  valid-IsAnswered [] addr h = let (ip, e) = valid-parsed addr h in (ip, e, refl)
  valid-IsAnswered (n ∷ ns) addr h =
      let (ip, e) = valid-parsed addr h in (ip, e, rw (e, contains_addr) refl)

  -- Where the address of the connection is a valid one, `Contains` answers for the address that the
  -- server takes for a client, whatever the headers of its request are, and does not panic: that
  -- the list of networks is empty, or that one of them holds the client.
  pub get_remote_addr-IsAnswered :
      (ns : List IpNet) (p : ProxyHeaderConfig) (r : Request)
      → is_valid_addr trim to_lower host_of is_ip r.remote_addr ≡ true
      → IsAnswered ns (get_remote_addr trim to_lower host_of is_ip p r)
  unfolding get_remote_addr
  get_remote_addr-IsAnswered ns p r h =
      valid-IsAnswered ns (get_remote_addr trim to_lower host_of is_ip p r)
        (ground (arith, h, get_remote_addr))
