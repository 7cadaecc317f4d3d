-- ===== src/Config/Networks.antt =====
-- `Networks` of config/types.go: its reading and `Contains`. `parse_cidr`, `host_of`, `parse_ip` and
-- `holds` are `ParseCIDR`, `SplitHostPort`, `ParseIP` and `IPNet.Contains` of the package `net`.
pub mod Addresses
use chproxy.Base.{Bool, List, Option, Text, [], any, none, some, true, ◌>>=◌, ◌∷◌}
use chproxy.Config.Load.{string_to_ipnet}
use chproxy.Setup.Types.{IpNet}

-- `UnmarshalYAML`, of a list of texts; `none` is an error.
unfoldable pub unmarshal_networks :
    (parse_cidr : Text → Option IpNet) → List Text → Option (List IpNet)
unfolding string_to_ipnet
unmarshal_networks parse_cidr [] = some []
unmarshal_networks parse_cidr (s ∷ ss) = do
  n ← string_to_ipnet parse_cidr (λ ns addr. true) s
  ns ← unmarshal_networks parse_cidr ss
  some (n ∷ ns)

-- An address without a port is taken whole.
abbrev pub host_or_addr : Option Text → (addr : Text) → Text
host_or_addr none addr = addr
host_or_addr (some h) addr = h

module _ {Ip : Type 0} (host_of : Text → Option Text) (parse_ip : Text → Option Ip)
    (holds : IpNet → Ip → Bool) where
  -- `Contains`; `none` is the panic for what is no address.
  unfoldable pub contains_addr : List IpNet → (addr : Text) → Option Bool
  contains_addr [] addr = some true
  contains_addr (n ∷ ns) addr = do
    ip ← parse_ip (host_or_addr (host_of addr) addr)
    some (any (λ net. holds net ip) (n ∷ ns))
