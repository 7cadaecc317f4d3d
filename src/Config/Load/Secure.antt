-- ===== src/Config/Load/Secure.antt =====
-- Whom `checkVulnerabilities` of config/config.go lets in.
use chproxy.Base.{
  All, Bool, List, Option, Text, [], arith, false, inr, is_empty, none, refl, true, ◌↔◌, ◌∷◌, ◌≡◌,
  ◌⊎◌,
}
use chproxy.Setup.Types.{UserConfig, Config, IpNet}
use chproxy.Scope.Types.{Networks}
use chproxy.Config.Validate.{first_error}
use chproxy.Config.Load.{validate_security, check_users, check_vulnerabilities, is_open, load_file}

-- A user without networks of its own: over an open http it has no password and no access, and over
-- an open https it has a password or no access.
pub record IsGuarded (has_http has_https : Bool) (u : UserConfig) : Type 0 where
  pub over_http : has_http ≡ true → (is_empty u.password ≡ true) × (u.deny_http ≡ true)
  pub over_https : has_https ≡ true → (is_empty u.password ≡ false) ⊎ (u.deny_https ≡ true)

abbrev pub IsSecure : (has_http has_https : Bool) → UserConfig → Type 0
IsSecure has_http has_https u =
    is_empty u.networks_or_groups ≡ true → IsGuarded has_http has_https u

module _ (has_http has_https : Bool) where
  security-IsGuarded :
      (u : UserConfig)
      → validate_security has_http has_https u ≡ none ↔ IsGuarded has_http has_https u
  unfolding validate_security first_error
  security-IsGuarded u = (λ e. ground arith, λ g. ground (arith, g.over_http, g.over_https))

  check_users-IsSecure :
      (us : List UserConfig)
      → check_users has_http has_https us ≡ none ↔ All (IsSecure has_http has_https) us
  unfolding check_users first_error
  check_users-IsSecure [] = (λ e. tt, λ h. refl)
  check_users-IsSecure (u ∷ us) =
      let one = security-IsGuarded u in
      let others = check_users-IsSecure us in
      (
        λ e. (λ h. one.0 (ground arith), others.0 (ground arith)),
        λ g. ground (arith, one.1, others.1 g.1, g.0),
      )

-- Without `hack_me_please` a configuration is accepted just if each user without networks of its
-- own is guarded: where http listens without networks it has neither a password, which could be
-- stolen, nor access, and where https listens without networks it has a password or no access.
pub check_vulnerabilities-IsSecure :
    (c : Config)
    → c.hack_me_please ≡ false
    → check_vulnerabilities c ≡ none
      ↔ All
          (IsSecure
            (is_open c.server.http.listen_addr c.server.http.networks_or_groups)
            (is_open c.server.https.listen_addr c.server.https.networks_or_groups))
          c.users
unfolding check_vulnerabilities
check_vulnerabilities-IsSecure c careful = rw careful (
    check_users-IsSecure (is_open c.server.http.listen_addr c.server.http.networks_or_groups)
      (is_open c.server.https.listen_addr c.server.https.networks_or_groups) c.users)

module _ (parse_cidr : Text → Option IpNet) (networks : List IpNet → Networks) where
  -- A loaded configuration was accepted.
  load_file-accepted :
      (c : Config) {c' : Config}
      → load_file parse_cidr networks c ≡ inr c'
      → check_vulnerabilities c' ≡ none
  unfolding load_file
  load_file-accepted c e = ground arith
