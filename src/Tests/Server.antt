-- ===== src/Tests/Server.antt =====
-- Examples for the theorems on the server, what it prints, and compressed bodies.
use chproxy.Base.{
  All, Option, Text, [], arith, at_end, bytes, false, inl, inr, insert, lookup, none, read_calls,
  refl, replicate, some, subst, suc, text_eq, true, zero, ℕ, ◌<◌, ◌∷◌, ◌≡◌, ◌⊎◌,
}
use chproxy.Http.{Request}
use chproxy.Server.{Server, route, apply_to_server, reload_config}
use chproxy.Server.Gate.{IsAdmitted, route-IsAdmitted}
use chproxy.Server.Reload.{SameService, apply_to_server-loses, reload_config-keeps}
use chproxy.Setup.Types.{Config, ReverseProxy, ProxyHeaderConfig}
use chproxy.Setup.Find.{get_user, not_found}
use chproxy.Setup.Apply.{proxy_config_changed}
use chproxy.Config.Load.{LoadError, load_file}
use chproxy.Config.Secrets.{without_sensitive_info}
use chproxy.Config.Secrets.Hidden.{
  Passwords, change_passwords, without_sensitive_info-change_passwords,
}
use chproxy.Decompress.{new_reader, read}
use chproxy.Decompress.RoundTrip.{Block, stream_of, content_of, read_calls-stream_of}
use chproxy.Topology.{Address}
use chproxy.Tests.Setup.{config, proxy}
use chproxy.Tests.Requests.{request}
use chproxy.Tests.Retry.{client}

abbrev running : Server
running = record {
  proxy = some proxy;
  allowed_networks_http = λ _. true;
  allowed_networks_https = λ _. false;
  allowed_networks_metrics = λ _. false;
  proxy_header = record { enable = false; header = [] };
  allow_ping = false;
}

abbrev address : ProxyHeaderConfig → Request → Text
address h r = r.remote_addr

route-IsAdmitted_example :
    IsAdmitted request.remote_addr running request
      (record request { remote_addr = request.remote_addr })
unfolding route text_eq chproxy.Server.route_path chproxy.Server.route_query
route-IsAdmitted_example = route-IsAdmitted address [] [] [] running request client refl

abbrev url : Text → Option Address
url t = some (record { scheme = bytes "http"; host = t })

apply_to_server-loses_example :
    (q : ReverseProxy) × ((apply_to_server url (λ _. true) (config (bytes "other")) running).0.proxy
      ≡ some q)
    × (get_user q (bytes "alice") (bytes "secret") ≡ not_found)
unfolding apply_to_server chproxy.Server.proxy_for chproxy.Setup.Apply.proxy_config_changed
    chproxy.Setup.Apply.apply_config chproxy.Setup.Build.new_clusters lookup text_eq
    chproxy.Setup.Apply.prepare chproxy.Setup.Apply.new_reverse_proxy
    chproxy.Setup.Apply.init_temp_caches chproxy.Setup.Build.params_from_config
    chproxy.Setup.Build.new_users chproxy.Setup.Build.new_user chproxy.Base.insert
    chproxy.Setup.Build.find_cache chproxy.Setup.Build.find_params
    chproxy.Setup.Apply.validate_no_wildcarded_user_for_heartbeat
apply_to_server-loses_example =
    apply_to_server-loses url (λ _. true) (config (bytes "other")) running proxy (bytes "alice")
      (bytes "secret") refl refl (λ e. cc)

-- Both limits on idle connections are 2, in the proxy and in the file.
abbrev same_limits : ReverseProxy
same_limits = proxy

abbrev serving : Server
serving = record running { proxy = some same_limits }

abbrev file : Config
file = record (config (bytes "other")) { hack_me_please = true; max_idle_conns = 2 }

abbrev or_file : LoadError ⊎ Config → Config
or_file (inl e) = file
or_file (inr c) = c

reload_config-keeps_example :
    SameService url
      (λ _. true)
      same_limits
      serving
      (reload_config url (λ _. true) (λ t. some t) (λ ns addr. true) file serving).0
unfolding reload_config load_file apply_to_server chproxy.Server.proxy_for
    chproxy.Setup.Apply.proxy_config_changed chproxy.Setup.Apply.apply_config
    chproxy.Setup.Build.new_clusters lookup text_eq chproxy.Setup.Apply.prepare
    chproxy.Setup.Apply.init_temp_caches chproxy.Setup.Build.params_from_config
    chproxy.Setup.Build.new_users chproxy.Setup.Build.new_user chproxy.Base.insert
    chproxy.Setup.Build.find_cache chproxy.Setup.Build.find_params
    chproxy.Setup.Apply.validate_no_wildcarded_user_for_heartbeat chproxy.Config.Load.set_defaults
    chproxy.Config.Load.load_clusters chproxy.Config.Load.load_cluster_users
    chproxy.Config.Load.group_to_network chproxy.Config.Load.networks_of
    chproxy.Config.Load.load_users chproxy.Config.Load.check_vulnerabilities
    chproxy.Config.Load.cluster_user_time chproxy.Config.Load.user_time
    chproxy.Config.Load.user_defaults chproxy.Config.Load.add64 chproxy.Config.Load.bits
    chproxy.Config.Load.of_bits chproxy.Config.Load.network_registry chproxy.Config.Load.load_server
    chproxy.Config.Load.string_to_ipnet chproxy.Config.Load.entire_ipv4
    chproxy.Config.Load.set_server_max_response_time chproxy.Config.Load.response_time
    chproxy.Config.Load.longest chproxy.Config.Load.longest_of_clusters
    chproxy.Config.Load.longest_of_users chproxy.Config.Load.check_users
reload_config-keeps_example =
    reload_config-keeps url (λ _. true) (λ t. some t) (λ ns addr. true) file serving same_limits
      refl (λ cfg e. subst (λ x. proxy_config_changed (or_file x) same_limits ≡ false) e refl)
      (λ e. cc)

abbrev passwords : Passwords
passwords = record {
  of_user = λ u. bytes "x";
  of_cluster_user = λ u. [];
  of_killer = λ c. c.name;
  of_redis = λ c. (1, []);
}

without_sensitive_info-change_passwords_example :
    without_sensitive_info (change_passwords passwords (config (bytes "main")))
    ≡ without_sensitive_info (config (bytes "main"))
without_sensitive_info-change_passwords_example =
    without_sensitive_info-change_passwords passwords (config (bytes "main"))

abbrev plain_block : Block
plain_block = record {
  checksum = replicate 16 0;
  kind = 0x02;
  content = bytes "abc";
  packed = bytes "abc";
}

-- `zstd` packs each content in one byte.
abbrev zstd_block : Block
zstd_block = record {
  checksum = replicate 16 1;
  kind = 0x90;
  content = bytes "xy";
  packed = 7 ∷ [];
}

two_bytes : (n : ℕ) → All (λ size. 0 < size) (replicate n 2)
two_bytes zero = tt
two_bytes (suc n) = (omega arith, two_bytes n)

read_calls-stream_of_example :
    read_calls
      (read (λ t n. none) (λ t. some (bytes "xy")))
      (replicate 8 2)
      (new_reader (stream_of (plain_block ∷ zstd_block ∷ [])))
    ≡ (bytes "abcxy", some at_end)
unfolding chproxy.Decompress.decompress_block chproxy.Decompress.RoundTrip.calls_for
    chproxy.Decompress.RoundTrip.content_of
read_calls-stream_of_example =
    read_calls-stream_of (λ t n. none) (λ t. some (bytes "xy")) (replicate 8 2)
      (plain_block ∷ zstd_block ∷ []) (two_bytes 8)
      (
        record {
          checksum_size = refl;
          packed_size = omega arith;
          content_size = omega arith;
          unpacks = refl;
        },
        (
          record {
            checksum_size = refl;
            packed_size = omega arith;
            content_size = omega arith;
            unpacks = refl;
          },
          tt,
        ),
      )
      (omega arith)
