-- ===== src/Tests/Requests.antt =====
-- Examples for the theorems on requests and their parameters.
use chproxy.Base.{
  List, Text, [], bytes, contains, false, has_prefix, hex08, if◌then◌else◌, insert, itoa, lookup,
  map, none, refl, some, text_eq, true, ◌/◌, ◌==◌, ◌||◌, ◌∷◌, ◌≡◌, ◌⊎◌,
}
use chproxy.Http.{get_header, Request, content, Values}
use chproxy.Setup.Types.{IpNet}
use chproxy.Config.Networks.Addresses.{IsAnswered, get_remote_addr-IsAnswered}
use chproxy.Proxy.Headers.{get_remote_addr, is_valid_addr, get_remote_addr-source, IsNamed}
use chproxy.Setup.Types.{ProxyHeaderConfig}
use chproxy.Utils.Comments.{can_cache_query, to_upper}
use chproxy.Utils.Comments.Relation.{Skips, can_cache_query_lem}
use chproxy.Scope.Types.{node_at, AsyncCache}
use chproxy.Scope.Decorate.{purify_params, decorate_request}
use chproxy.Scope.Decorate.Params.{IsForwarded, purify_params-IsForwarded}
use chproxy.Scope.Decorate.Identity.{decorate_request-identity}
use chproxy.Tests.Fixtures.{scope, node}

abbrev pub request : Request
request = record {
  method = bytes "POST";
  request_uri = bytes "/?query_id=1";
  path = bytes "/";
  scheme = bytes "http";
  url_host = bytes "proxy";
  query = (bytes "query_id", bytes "1" ∷ []) ∷ (bytes "session_timeout", bytes "-5" ∷ []) ∷ [];
  headers = (bytes "X-ClickHouse-User", bytes "root") ∷ [];
  basic_auth = some (bytes "alice", bytes "secret");
  body = content (bytes " -- x\nselect 1");
  is_tls = false;
  remote_addr = bytes "10.0.0.1:5000";
}

abbrev query : Text
query = bytes " /* a */ -- b\n select 1"

can_cache_query_lem_example :
    (r : Text) × Skips r query
    × (can_cache_query query
        ≡ has_prefix (map to_upper r) (bytes "SELECT")
          || has_prefix (map to_upper r) (bytes "WITH"))
can_cache_query_lem_example = can_cache_query_lem query

purify_params-IsForwarded_example : IsForwarded (scope 5) request (bytes "query_id")
unfolding purify_params lookup chproxy.Http.set_value chproxy.Base.insert text_eq
    chproxy.Scope.Decorate.decorate_post_request chproxy.Scope.Decorate.is_multipart
    chproxy.Base.contains chproxy.Http.get_header chproxy.Scope.Decorate.keep_matching
    chproxy.Scope.Decorate.is_param chproxy.Scope.Decorate.keep_allowed chproxy.Http.get_value
    chproxy.Scope.Decorate.set_user_params
purify_params-IsForwarded_example =
    purify_params-IsForwarded (scope 5) request (bytes "query_id") refl

decorate_request-identity_example :
    (out : Request) × (orig : Values) × (decorate_request (scope 5) request ≡ some (out, orig))
    × (out.scheme ≡ bytes "http")
    × (out.url_host ≡ bytes "ch:8123")
    × (out.basic_auth ≡ some (bytes "web", bytes "pw"))
    × (lookup (bytes "query_id") out.query ≡ some (hex08 11 ∷ []))
    × (lookup (bytes "session_timeout") out.query ≡ some (itoa 60 ∷ []))
    × (lookup (bytes "X-ClickHouse-User") out.headers ≡ none)
    × (lookup (bytes "X-ClickHouse-Key") out.headers ≡ none)
    × (out.body ≡ request.body)
unfolding node_at text_eq
decorate_request-identity_example =
    decorate_request-identity (scope 5) request (node true 2) refl refl

abbrev cache : AsyncCache
cache = record {
  name = bytes "c";
  grace_time = 10;
  max_payload_size = 1000;
  shared_with_all_users = false;
}

abbrev behind_proxy : Request
behind_proxy = record request {
  headers = (bytes "X-Forwarded-For", bytes "10.1.1.1,10.2.2.2") ∷ [];
}

abbrev proxy_headers : ProxyHeaderConfig
proxy_headers = record { enable = true; header = [] }

get_remote_addr-source_example :
    let valid = is_valid_addr (λ t. t) (λ t. t) (λ t. none) (λ t. true) in
    let named = IsNamed (λ t. t) (λ t. t) (λ t. none) (λ t. true) proxy_headers behind_proxy in
    let addr =
      get_remote_addr (λ t. t) (λ t. t) (λ t. none) (λ t. true) proxy_headers behind_proxy in
    ((true ≡ true) × (valid addr ≡ true) × named addr)
    ⊎ ((addr ≡ bytes "10.0.0.1:5000")
        × ((true ≡ false) ⊎ ((a : Text) × named a × (valid a ≡ false))))
get_remote_addr-source_example =
    get_remote_addr-source (λ t. t) (λ t. t) (λ t. none) (λ t. true) proxy_headers behind_proxy

abbrev before_colon : Text → Text
before_colon [] = []
before_colon (c ∷ t) = let rest = before_colon t in if c == b':' then [] else c ∷ rest

abbrev allowed : List IpNet
allowed = bytes "10.1.1.1" ∷ bytes "10.0.0.1" ∷ []

get_remote_addr-IsAnswered_example :
    IsAnswered
      (λ t. some (before_colon t))
      (λ t. some t)
      text_eq
      (λ t. t)
      (λ t. t)
      allowed
      (get_remote_addr
        (λ t. t)
        (λ t. t)
        (λ t. some (before_colon t))
        (λ t. true)
        proxy_headers
        behind_proxy)
unfolding is_valid_addr
get_remote_addr-IsAnswered_example =
    get_remote_addr-IsAnswered (λ t. some (before_colon t)) (λ t. some t) text_eq (λ t. t) (λ t. t)
      allowed proxy_headers behind_proxy refl
