-- ===== src/Tests/Config.antt =====
-- Examples for the theorems on the configuration's checks and durations.
use chproxy.Scope.Pick.{get_host}
use chproxy.Scope.Pick.Hosts.{IsBuilt, IsBest}
use chproxy.Setup.Build.{
  new_cluster, new_cluster_users, new_replicas, new_replica, new_nodes, new_heartbeat,
}
use chproxy.Scope.Types.{Cluster, HostRef}
use chproxy.Topology.{Address}
use chproxy.Base.{
  All, Option, Text, [], arith, bytes, false, inl, inr, lookup, none, pos, refl, some, text_eq,
  true, ℕ, ◌*◌, ◌^◌, ◌↔◌, ◌≡◌, ◌⊎◌,
}
use chproxy.Config.Load.{
  load_clusters, load_cluster_users, load_users, group_to_network, networks_of, add64, bits,
  of_bits, LoadError,
}
use chproxy.Setup.Types.{Result, ok, err, panic, Config, UserConfig}
use chproxy.Config.Load.Secure.{IsSecure, check_vulnerabilities-IsSecure}
use chproxy.Config.Load.Timeouts.{IsCovered, set_defaults-IsCovered}
use chproxy.Config.Load.{
  check_vulnerabilities, set_defaults, user_time, user_defaults, cluster_user_time,
}
use chproxy.Config.Validate.{validate_cluster, first_error, validate_minimum_requirements}
use chproxy.Config.Duration.{string_to_duration, duration_text}
use chproxy.Config.Duration.RoundTrip.{string_to_duration-duration_text}
use chproxy.Setup.Build.Shape.{new_cluster-has_host}
use chproxy.Tests.Fixtures.{cluster}
use chproxy.Tests.Setup.{config, user_config, cluster_config}

string_to_duration-duration_text_example :
    string_to_duration (duration_text (pos (90 * 10 ^ 9))) ≡ some (pos (90 * 10 ^ 9))
string_to_duration-duration_text_example =
    string_to_duration-duration_text (90 * 10 ^ 9) (omega arith)

abbrev main : Config
main = config (bytes "main")

check_vulnerabilities-IsSecure_example :
    check_vulnerabilities main ≡ none ↔ All (IsSecure false false) main.users
check_vulnerabilities-IsSecure_example = check_vulnerabilities-IsSecure main refl

abbrev wild : UserConfig
wild = record (user_config (bytes "main")) { name = bytes "team_*"; is_wildcarded = true }

abbrev parse : Text → Option Address
parse t = some (record { scheme = bytes "http"; host = t })

abbrev or_config : LoadError ⊎ Config → Config
or_config (inl e) = main
or_config (inr c) = c

abbrev or_cluster : Result Cluster → Cluster
or_cluster (ok c) = c
or_cluster (err e) = cluster
or_cluster panic = cluster

-- Its nodes are flat, and in one replica of the name `default`.
abbrev built : Cluster
built = or_cluster (new_cluster parse cluster_config)

new_cluster-has_host_example :
    IsBuilt built
    × ((h : HostRef) × (d : Cluster) × (get_host built ≡ some (h, d)) × IsBest built h)
unfolding new_cluster new_cluster_users new_replicas new_replica new_nodes new_heartbeat
    validate_cluster validate_minimum_requirements first_error text_eq lookup
new_cluster-has_host_example =
    new_cluster-has_host parse cluster_config refl tt (omega arith) (omega arith) tt refl

abbrev loaded : Config
loaded = or_config (set_defaults (λ t. some t) (λ ns addr. true) [] main)

set_defaults-IsCovered_example :
    (w : ℕ) × (loaded.server.http.timeouts.write_timeout ≡ pos w)
    × IsCovered w main.clusters main.users
unfolding set_defaults load_clusters load_cluster_users group_to_network networks_of load_users
    cluster_user_time user_time user_defaults add64 bits of_bits
set_defaults-IsCovered_example =
    set_defaults-IsCovered (λ t. some t) (λ ns addr. true) [] main refl refl refl
      (((50, refl, omega arith), tt), tt) ((10, refl, omega arith), tt)
