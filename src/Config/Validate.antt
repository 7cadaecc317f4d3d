-- ===== src/Config/Validate.antt =====
-- config/config.go: the checks of the parts of a configuration file (`validate` and the checks of
-- `UnmarshalYAML`). Unknown fields, which `checkOverflow` refuses, belong to the decoding and are left
-- out.
pub mod Wildcards
use chproxy.Base.{
  Bool, List, Option, Text, [], bytes, false, if◌then◌else◌, is_empty, is_none, is_positive,
  is_zero, ltb, none, not, pos, some, text_eq, true, ℕ, ℤ, ◌&&◌, ◌*◌, ◌++◌, ◌==◌, ◌^◌, ◌||◌, ◌∷◌,
}
use chproxy.Setup.Types.{
  UserConfig, ClusterUserConfig, ReplicaConfig, ClusterConfig, CacheConfig, ParamGroupConfig,
  Config, TimeoutConfig, HttpConfig, HttpsConfig, ProxyHeaderConfig, NetworkGroup,
}

-- The errors, without the names in their texts.
pub data Invalid : Type 0 where
  no_users no_clusters no_server no_certificates : Invalid
  certificate_and_autocert networks_and_autocert no_key_file no_cert_file : Invalid
  header_without_proxy : Invalid
  no_cluster_name no_nodes nodes_and_replicas no_cluster_users bad_scheme no_heartbeat : Invalid
  no_replica_name no_replica_nodes no_cluster_user_name : Invalid
  no_user_name no_to_user no_to_cluster nobody_allowed bad_wildcard : Invalid
  no_queue_size no_tokens_rate : Invalid
  no_group_name no_group_networks no_cache_name bad_cache : Invalid
  no_param_group_name no_params bad_connection_pool : Invalid

abbrev pub reject {ℓ} : {E : Type ℓ} → Bool → E → Option E
reject b e = if b then some e else none

-- Checks one after the other: the first error.
unfoldable pub first_error {ℓ} : {E : Type ℓ} → List (Option E) → Option E
first_error [] = none
first_error (none ∷ es) = first_error es
first_error (some e ∷ es) = some e

abbrev pub minutes : ℕ → ℤ
minutes n = pos (n * (60 * 10 ^ 9))

abbrev or_default : (default value : ℤ) → ℤ
or_default default value = if is_zero value then default else value

-- The defaults of both servers.
unfoldable pub default_timeouts : TimeoutConfig → TimeoutConfig
default_timeouts t = record t {
  read_timeout = or_default (minutes 1) t.read_timeout;
  idle_timeout = or_default (minutes 10) t.idle_timeout;
}

unfoldable pub validate_http : HttpConfig → HttpConfig
validate_http c = record c { timeouts = default_timeouts c.timeouts }

unfoldable pub validate_cert_config : HttpsConfig → Option Invalid
validate_cert_config c =
    let autocert = not (is_empty c.cache_dir) in
    let cert = not (is_empty c.cert_file) in
    let key = not (is_empty c.key_file) in
    first_error (
      reject (autocert && (cert || key)) certificate_and_autocert
      ∷ reject (autocert && not (is_empty c.networks_or_groups)) networks_and_autocert
      ∷ reject (cert && not key) no_key_file
      ∷ reject (key && not cert) no_cert_file
      ∷ [])

unfoldable pub validate_https : HttpsConfig → HttpsConfig × Option Invalid
validate_https c =
    let c' = record c {
      timeouts = default_timeouts c.timeouts;
      listen_addr = if is_empty c.listen_addr then bytes ":443" else c.listen_addr;
    } in
    (c', validate_cert_config c')

unfoldable pub validate_proxy : ProxyHeaderConfig → Option Invalid
validate_proxy c = reject (not c.enable && not (is_empty c.header)) header_without_proxy

unfoldable pub validate_replica : ReplicaConfig → Option Invalid
validate_replica r =
    first_error
      (reject (is_empty r.name) no_replica_name ∷ reject (is_empty r.nodes) no_replica_nodes ∷ [])

unfoldable pub validate_cluster_user : ClusterUserConfig → Option Invalid
validate_cluster_user cu = first_error (
    reject (is_empty cu.name) no_cluster_user_name
    ∷ reject (is_positive cu.max_queue_time && cu.max_queue_size == 0) no_queue_size
    ∷ reject (ltb 0 cu.tokens_burst && cu.tokens_rate == 0) no_tokens_rate
    ∷ [])

unfoldable pub validate_minimum_requirements : ClusterConfig → Option Invalid
validate_minimum_requirements c = first_error (
    reject (is_empty c.nodes && is_empty c.replicas) no_nodes
    ∷ reject (not (is_empty c.nodes) && not (is_empty c.replicas)) nodes_and_replicas
    ∷ reject (is_empty c.cluster_users) no_cluster_users
    ∷ [])

unfoldable pub validate_cluster : ClusterConfig → Option Invalid
validate_cluster c = first_error (
    reject (is_empty c.name) no_cluster_name
    ∷ validate_minimum_requirements c
    ∷ reject (not (text_eq c.scheme (bytes "http")) && not (text_eq c.scheme (bytes "https")))
        bad_scheme
    ∷ reject
        (c.heart_beat.interval == 0
          && (c.heart_beat.timeout == 0 && is_empty c.heart_beat.response))
        no_heartbeat
    ∷ [])

-- `strings.Split(name, "*")`.
unfoldable pub split_stars : (part : Text) → Text → List Text
split_stars part [] = part ∷ []
split_stars part (c ∷ t) =
    let longer = split_stars (part ++ (c ∷ [])) t in
    let next = split_stars [] t in if c == b'*' then part ∷ next else longer

unfoldable pub is_wildcard : List Text → Bool
is_wildcard (a ∷ b ∷ []) = is_empty a || is_empty b
is_wildcard parts = false

unfoldable pub validate_wildcarded : UserConfig → Option Invalid
validate_wildcarded u =
    reject (u.is_wildcarded && not (is_wildcard (split_stars [] u.name))) bad_wildcard

unfoldable pub validate_rate_limit_config : UserConfig → Option Invalid
validate_rate_limit_config u = first_error (
    reject (is_positive u.max_queue_time && u.max_queue_size == 0) no_queue_size
    ∷ reject (ltb 0 u.tokens_burst && u.tokens_rate == 0) no_tokens_rate
    ∷ [])

unfoldable pub validate_user : UserConfig → Option Invalid
validate_user u = first_error (
    reject (is_empty u.name) no_user_name
    ∷ reject (is_empty u.to_user) no_to_user
    ∷ reject (is_empty u.to_cluster) no_to_cluster
    ∷ reject (u.deny_http && u.deny_https) nobody_allowed
    ∷ validate_wildcarded u
    ∷ validate_rate_limit_config u
    ∷ [])

unfoldable pub validate_network_group : NetworkGroup → Option Invalid
validate_network_group g =
    first_error
      (reject (is_empty g.name) no_group_name ∷ reject (is_empty g.networks) no_group_networks ∷ [])

pub check_file_system_config : CacheConfig → Bool
check_file_system_config c = not (is_empty c.dir) && ltb 0 c.max_size

pub check_redis_config : CacheConfig → Bool
check_redis_config c = not (is_empty c.redis_addresses)

unfoldable pub validate_cache : CacheConfig → Option Invalid
validate_cache c =
    let fits =
      if text_eq c.mode (bytes "file_system")
      then check_file_system_config c
      else if text_eq c.mode (bytes "redis")
      then check_redis_config c
      else false in
    first_error (reject (is_empty c.name) no_cache_name ∷ reject (not fits) bad_cache ∷ [])

unfoldable pub validate_param_group : ParamGroupConfig → Option Invalid
validate_param_group g =
    first_error
      (reject (is_empty g.name) no_param_group_name ∷ reject (is_empty g.params) no_params ∷ [])

-- The two limits are natural numbers, so the second is never below 0.
unfoldable pub validate_connection_pool : Config → Option Invalid
validate_connection_pool c =
    reject (ltb c.max_idle_conns c.max_idle_conns_per_host) bad_connection_pool

-- Autocert needs its handler on the server for HTTP.
unfoldable pub validate_config : Config → Config × Option Invalid
validate_config c =
    let http = c.server.http in
    let https = c.server.https in
    let certified =
      not (is_empty https.cache_dir)
      || (not (is_empty https.cert_file) || not (is_empty https.key_file)) in
    let e = first_error (
      reject (is_empty c.users) no_users
      ∷ reject (is_empty c.clusters) no_clusters
      ∷ reject (is_empty http.listen_addr && is_empty https.listen_addr) no_server
      ∷ reject (not (is_empty https.listen_addr) && not certified) no_certificates
      ∷ []) in
    let forced = record c {
      server = record c.server { http = record http { force_autocert_handler = true } };
    } in
    if is_none e && (not (is_empty https.listen_addr) && not (is_empty https.cache_dir))
    then (forced, e)
    else (c, e)
