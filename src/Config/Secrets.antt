-- ===== src/Config/Secrets.antt =====
-- `withoutSensitiveInfo` of config/config.go: the configuration that `String` prints, and so the log
-- and the text for a start with `-version`.
pub mod Hidden
use chproxy.Base.{Text, bytes, if◌then◌else◌, is_empty, map}
use chproxy.Setup.Types.{UserConfig, ClusterUserConfig, ClusterConfig, CacheConfig, Config}

abbrev pub psw_place_holder : Text
psw_place_holder = bytes "XXX"

abbrev hide_user : UserConfig → UserConfig
hide_user u = record u { password = psw_place_holder }

abbrev hide_cluster_user : ClusterUserConfig → ClusterUserConfig
hide_cluster_user u = record u { password = psw_place_holder }

unfoldable pub hide_cluster : ClusterConfig → ClusterConfig
hide_cluster c = record c {
  kill_query_user_password =
      if is_empty c.kill_query_user_name then c.kill_query_user_password else psw_place_holder;
  cluster_users = map hide_cluster_user c.cluster_users;
}

unfoldable pub hide_cache : CacheConfig → CacheConfig
hide_cache c = record c {
  redis_password = if is_empty c.redis_password then c.redis_password else psw_place_holder;
}

unfoldable pub without_sensitive_info : Config → Config
unfolding hide_cluster hide_cache
without_sensitive_info c = record c {
  users = map hide_user c.users;
  clusters = map hide_cluster c.clusters;
  caches = map hide_cache c.caches;
}
