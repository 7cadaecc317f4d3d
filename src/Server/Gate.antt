-- ===== src/Server/Gate.antt =====
-- Which requests `serveHTTP` of main.go hands on to the proxy.
use chproxy.Proxy.Writers.{Client}
use chproxy.Http.{Request}
use chproxy.Base.{Text, arith, bytes, if◌then◌else◌, text_eq, true, ◌&&◌, ◌||◌, ◌≡◌}
use chproxy.Server.{Server, to_proxy, route, route_path, route_query}
use chproxy.Setup.Types.{ProxyHeaderConfig}

-- A request that the proxy gets: its method, its path and its client's network are allowed, and its
-- address is the one that the proxy headers give.
pub record IsAdmitted (addr : Text) (s : Server) (r q : Request) : Type 0 where
  pub method : text_eq r.method (bytes "GET") || text_eq r.method (bytes "POST") ≡ true
  pub path :
      text_eq r.path (bytes "/")
        || (text_eq r.path (bytes "/query") || (text_eq r.path (bytes "/ping") && s.allow_ping))
      ≡ true
  pub network : (if r.is_tls then s.allowed_networks_https else s.allowed_networks_http) addr ≡ true
  pub request : q ≡ record r { remote_addr = addr }

-- Only such requests reach the proxy: by GET or POST, on the root, on /query, or on /ping where pings
-- are allowed, from an address that the networks of their scheme allow; and the proxy sees that
-- address.
pub route-IsAdmitted :
    (remote_addr_of : ProxyHeaderConfig → Request → Text)
    (method_error path_error network_error : Text) (s : Server) (r : Request) (c : Client)
    {q : Request}
    → route remote_addr_of method_error path_error network_error s r c ≡ to_proxy q
    → IsAdmitted (remote_addr_of s.proxy_header r) s r q
unfolding route route_path route_query
route-IsAdmitted remote_addr_of method_error path_error network_error s r c e = ground arith
