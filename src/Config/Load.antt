-- ===== src/Config/Load.antt =====
-- config/config.go: `LoadFile` behind the decoding, with `groupToNetwork`, `setDefaults` and
-- `checkVulnerabilities`, and `stringToIPnet` of config/utils.go. `parse_cidr` is `net.ParseCIDR`,
-- and `networks` the method `Contains` of a list of networks.
pub mod Secure
pub mod Timeouts
use chproxy.Base.{
  Bool, Dict, List, Option, Text, [], bytes, contains, if◌then◌else◌, inl, inr, insert, int_lt,
  is_empty, is_some, is_zero, lookup, ltb, map, negsuc, none, not, pos, some, text_eq, ℕ, ℤ, ◌%◌,
  ◌&&◌, ◌*◌, ◌++◌, ◌+◌, ◌-◌, ◌/◌, ◌==◌, ◌^◌, ◌∷◌, ◌⊎◌,
}
use chproxy.Setup.Types.{
  UserConfig, ClusterUserConfig, ClusterConfig, CacheConfig, Config, ServerConfig, NetworkGroup,
  IpNet, TimeoutConfig,
}
use chproxy.Scope.Types.{Networks}
use chproxy.Config.Validate.{reject, first_error, minutes}

pub data LoadError : Type 0 where
  duplicate_network_group bad_network : Text → LoadError
  open_https open_http password_over_http : Text → LoadError

-- `Duration` is an int64, so a sum wraps around.
unfoldable pub bits : ℤ → ℕ
bits (pos n) = n % 2 ^ 64
bits (negsuc n) = 2 ^ 64 - 1 - n % 2 ^ 64

unfoldable pub of_bits : ℕ → ℤ
of_bits w = if ltb w (2 ^ 63) then pos w else negsuc (2 ^ 64 - 1 - w)

unfoldable pub add64 : ℤ → ℤ → ℤ
unfolding bits of_bits
add64 a b = of_bits ((bits a + bits b) % 2 ^ 64)

abbrev pub larger : ℤ → ℤ → ℤ
larger a b = if int_lt a b then b else a

unfoldable pub entire_ipv4 : Text
entire_ipv4 = bytes "0.0.0.0/0"

-- The loop over `NetworkGroups`.
unfoldable pub network_registry :
    List NetworkGroup → Dict (List IpNet) → LoadError ⊎ Dict (List IpNet)
network_registry [] reg = inr reg
network_registry (g ∷ gs) reg =
    let rest = network_registry gs (insert g.name g.networks reg) in
    if is_some (lookup g.name reg) then inl (duplicate_network_group g.name) else rest

-- `u.setDefaults` for a user, and the limit on the payload of a cache.
unfoldable pub user_defaults : UserConfig → UserConfig
user_defaults u = record u {
  max_execution_time =
      if is_zero u.max_execution_time then pos (120 * 10 ^ 9) else u.max_execution_time;
}

unfoldable pub cache_defaults : CacheConfig → CacheConfig
cache_defaults c = record c {
  max_payload_size = if c.max_payload_size == 0 then 2 ^ 50 else c.max_payload_size;
}

-- What a user may take at most: running and waiting.
unfoldable pub user_time : UserConfig → ℤ
user_time u = add64 u.max_execution_time u.max_queue_time

unfoldable pub cluster_user_time : ClusterUserConfig → ℤ
cluster_user_time cu = add64 cu.max_execution_time cu.max_queue_time

-- The longest time of a list, and of `t`.
unfoldable pub longest {ℓ} : {A : Type ℓ} → (time : A → ℤ) → ℤ → List A → ℤ
longest time t [] = t
longest time t (x ∷ xs) = longest time (larger t (time x)) xs

unfoldable pub longest_of_clusters : ℤ → List ClusterConfig → ℤ
unfolding longest
longest_of_clusters t [] = t
longest_of_clusters t (c ∷ cs) =
    longest_of_clusters (longest cluster_user_time t c.cluster_users) cs

unfoldable pub longest_of_users : ℤ → List UserConfig → ℤ
unfolding longest
longest_of_users t us = longest (λ u. user_time (user_defaults u)) t us

abbrev pub with_write_timeout : (listen_addr : Text) → ℤ → TimeoutConfig → TimeoutConfig
with_write_timeout listen_addr t c =
    if not (is_empty listen_addr) && is_zero c.write_timeout
    then record c { write_timeout = t }
    else c

-- A minute is added for sending the response.
unfoldable pub response_time : ℤ → ℤ
unfolding add64
response_time t = add64 (if int_lt t (pos 0) then pos 0 else t) (minutes 1)

unfoldable pub set_server_max_response_time : ℤ → ServerConfig → ServerConfig
set_server_max_response_time t s =
    let d = response_time t in
    record s {
      http = record s.http { timeouts = with_write_timeout s.http.listen_addr d s.http.timeouts };
      https = record s.https {
        timeouts = with_write_timeout s.https.listen_addr d s.https.timeouts;
      };
    }

module _ (parse_cidr : Text → Option IpNet) (networks : List IpNet → Networks) where
  unfoldable pub string_to_ipnet : Text → Option IpNet
  string_to_ipnet s =
      if text_eq s entire_ipv4
      then none
      else parse_cidr (if contains s (bytes "/") then s else s ++ bytes "/32")

  unfoldable pub networks_of : Dict (List IpNet) → List Text → LoadError ⊎ List IpNet
  networks_of reg [] = inr []
  networks_of reg (v ∷ vs) = elim (lookup v reg) [
    | some group ↦ elim (networks_of reg vs) [ inl e ↦ inl e | inr rest ↦ inr (group ++ rest) ]
    | none ↦ elim (string_to_ipnet v) [
      | none ↦ inl (bad_network v)
      | some n ↦ elim (networks_of reg vs) [ inl e ↦ inl e | inr rest ↦ inr (n ∷ rest) ]
    ]
  ]

  abbrev pub map_result {ℓ κ} : {A : Type ℓ} {B : Type κ} → (A → B) → LoadError ⊎ A → LoadError ⊎ B
  map_result f (inl e) = inl e
  map_result f (inr a) = inr (f a)

  unfoldable pub group_to_network : Dict (List IpNet) → List Text → LoadError ⊎ Networks
  group_to_network reg src = map_result networks (networks_of reg src)

  module _ (reg : Dict (List IpNet)) where
    unfoldable pub load_cluster_users : List ClusterUserConfig → LoadError ⊎ List ClusterUserConfig
    load_cluster_users [] = inr []
    load_cluster_users (cu ∷ cus) = elim (group_to_network reg cu.networks_or_groups) [
      | inl e ↦ inl e
      | inr nets ↦
          map_result (λ rest. record cu { allowed_networks = nets } ∷ rest) (load_cluster_users cus)
    ]

    unfoldable pub load_clusters : List ClusterConfig → LoadError ⊎ List ClusterConfig
    load_clusters [] = inr []
    load_clusters (c ∷ cs) = elim (load_cluster_users c.cluster_users) [
      | inl e ↦ inl e
      | inr cus ↦ map_result (λ rest. record c { cluster_users = cus } ∷ rest) (load_clusters cs)
    ]

    unfoldable pub load_users : List UserConfig → LoadError ⊎ List UserConfig
    load_users [] = inr []
    load_users (u ∷ us) = elim (group_to_network reg u.networks_or_groups) [
      | inl e ↦ inl e
      | inr nets ↦
          map_result (λ rest. record (user_defaults u) { allowed_networks = nets } ∷ rest)
            (load_users us)
    ]

    unfoldable pub load_server : ServerConfig → LoadError ⊎ ServerConfig
    load_server s = elim (group_to_network reg s.http.networks_or_groups) [
      | inl e ↦ inl e
      | inr http ↦ elim (group_to_network reg s.https.networks_or_groups) [
        | inl e ↦ inl e
        | inr https ↦
            map_result
              (λ metrics. record s {
                http = record s.http { allowed_networks = http };
                https = record s.https { allowed_networks = https };
                metrics_allowed_networks = metrics;
              })
              (group_to_network reg s.metrics_networks_or_groups)
      ]
    ]

    unfoldable pub set_defaults : Config → LoadError ⊎ Config
    set_defaults c =
        let longest = longest_of_users (longest_of_clusters (pos 0) c.clusters) c.users in
        elim (load_clusters c.clusters) [
          | inl e ↦ inl e
          | inr clusters ↦
              map_result
                (λ users. record c {
                  clusters = clusters;
                  users = users;
                  caches = map cache_defaults c.caches;
                  max_error_reason_size =
                      if c.max_error_reason_size == 0 then 2 ^ 50 else c.max_error_reason_size;
                  server = set_server_max_response_time longest c.server;
                })
                (load_users c.users)
        ]

-- `validateSecurity`, for a user without networks of its own.
unfoldable pub validate_security : (has_http has_https : Bool) → UserConfig → Option LoadError
validate_security has_http has_https u = first_error (
    reject (is_empty u.password && (not u.deny_https && has_https)) (open_https u.name)
    ∷ reject (is_empty u.password && (not u.deny_http && has_http)) (open_http u.name)
    ∷ reject (not (is_empty u.password) && has_http) (password_over_http u.name)
    ∷ [])

unfoldable pub check_users : (has_http has_https : Bool) → List UserConfig → Option LoadError
check_users has_http has_https [] = none
check_users has_http has_https (u ∷ us) =
    let rest = check_users has_http has_https us in
    if not (is_empty u.networks_or_groups)
    then rest
    else first_error (validate_security has_http has_https u ∷ rest ∷ [])

-- Whether a server listens without networks of its own.
abbrev pub is_open : (listen_addr : Text) → List Text → Bool
is_open listen_addr networks = not (is_empty listen_addr) && is_empty networks

unfoldable pub check_vulnerabilities : Config → Option LoadError
check_vulnerabilities c =
    let has_https = is_open c.server.https.listen_addr c.server.https.networks_or_groups in
    let has_http = is_open c.server.http.listen_addr c.server.http.networks_or_groups in
    if c.hack_me_please then none else check_users has_http has_https c.users

abbrev accept : Config → LoadError ⊎ Config
accept c = elim (check_vulnerabilities c) [ none ↦ inr c | some e ↦ inl e ]

module _ (parse_cidr : Text → Option IpNet) (networks : List IpNet → Networks) where
  -- `LoadFile`, of a file that was decoded.
  unfoldable pub load_file : Config → LoadError ⊎ Config
  load_file c = elim (network_registry c.network_groups []) [
    | inl e ↦ inl e
    | inr reg ↦ elim (load_server parse_cidr networks reg c.server) [
      | inl e ↦ inl e
      | inr server ↦ elim (set_defaults parse_cidr networks reg (record c { server = server })) [
        | inl e ↦ inl e
        | inr c' ↦ accept c'
      ]
    ]
  ]
