-- ===== src/Scope/Decorate.antt =====
-- scope.go: `decorateRequest` and `decoratePostRequest`, which turn a client's request into the one
-- that is sent to ClickHouse. `range` over a map goes through the keys of the association list.
pub mod Params
pub mod Identity
use chproxy.Base.{
  Bool, List, Option, Text, [], bytes, contains, delete, has_prefix, has_suffix, hex08,
  if◌then◌else◌, insert, itoa, map, none, some, text_eq, ◌++◌, ◌>>=◌, ◌||◌, ◌∷◌,
}
use chproxy.Topology.{Address, Node}
use chproxy.Http.{Request, Values, get_value, set_value, get_header}
use chproxy.Scope.Types.{ParamsRegistry, Scope, node_at}

abbrev pub ping_endpoint : Text
ping_endpoint = bytes "/ping"

abbrev pub allowed_params : List Text
allowed_params =
    bytes "query"
    ∷ bytes "database"
    ∷ bytes "default_format"
    ∷ bytes "compress"
    ∷ bytes "decompress"
    ∷ bytes "enable_http_compression"
    ∷ bytes "max_result_rows"
    ∷ bytes "extremes"
    ∷ bytes "result_overflow_mode"
    ∷ bytes "session_id"
    ∷ bytes "session_timeout"
    ∷ bytes "log_comment"
    ∷ []

-- The regular expression `(_types|_structure|_format)$`.
unfoldable pub is_external_data_param : Text → Bool
is_external_data_param k =
    has_suffix k (bytes "_types")
    || (has_suffix k (bytes "_structure") || has_suffix k (bytes "_format"))

unfoldable pub set_user_params : List (Text × Text) → Values → Values
unfolding set_value
set_user_params [] params = params
set_user_params ((k, v) ∷ kvs) params = set_user_params kvs (set_value k v params)

-- One turn of the loop over `allowedParams`.
abbrev pub set_nonempty : Text → Text → Values → Values
set_nonempty k [] params = params
set_nonempty k (c ∷ v) params = set_value k (c ∷ v) params

unfoldable pub keep_allowed : List Text → Values → Values → Values
keep_allowed [] orig params = params
keep_allowed (k ∷ ks) orig params = keep_allowed ks orig (set_nonempty k (get_value k orig) params)

-- The loops over the keys of the original parameters that pass a test.
unfoldable pub keep_matching : (Text → Bool) → List Text → Values → Values → Values
keep_matching p [] orig params = params
keep_matching p (k ∷ ks) orig params =
    keep_matching p ks orig (if p k then set_value k (get_value k orig) params else params)

abbrev pub keys : Values → List Text
keys vs = map (λ e. e.0) vs

unfoldable pub is_multipart : Request → Bool
is_multipart req =
    contains (get_header (bytes "Content-Type") req.headers) (bytes "multipart/form-data")

-- The new parameters, and the original ones, which lose their cache.
unfoldable pub decorate_post_request : Request → Values → Values → Values × Values
decorate_post_request req orig params =
    if is_multipart req
    then (
      keep_matching is_external_data_param (keys orig) orig params,
      set_value (bytes "no_cache") (bytes "1") orig,
    )
    else (params, orig)

abbrev pub user_params : Option ParamsRegistry → List (Text × Text)
user_params none = []
user_params (some r) = r.params

unfoldable pub is_param : Text → Bool
is_param k = has_prefix k (bytes "param_")

-- The parameters that are sent, and the original ones as the caller gets them.
unfoldable pub purify_params : Scope → Request → Values × Values
purify_params s req =
    let orig = req.query in
    let p1 = set_user_params (user_params s.user.params) [] in
    let p2 = keep_allowed allowed_params orig p1 in
    let p3 = keep_matching is_param (keys orig) orig p2 in
    let (p4, orig') =
      if text_eq req.method (bytes "POST") then decorate_post_request req orig p3 else (p3, orig) in
    let p5 = set_value (bytes "query_id") (hex08 s.id) p4 in
    (set_value (bytes "session_timeout") (itoa s.session_timeout) p5, orig')

unfoldable pub user_agent : Scope → Request → Text
user_agent s req =
    bytes "RemoteAddr: "
    ++ (s.remote_addr
        ++ (bytes "; LocalAddr: "
            ++ (s.local_addr
                ++ (bytes "; CHProxy-User: "
                    ++ (s.user.name
                        ++ (bytes "; CHProxy-ClusterUser: "
                            ++ (s.cluster_user.name
                                ++ (bytes "; "
                                    ++ get_header (bytes "User-Agent") req.headers))))))))

unfoldable pub send_to : Address → Request → Request
send_to addr req = record req { scheme = addr.scheme; url_host = addr.host }

-- The new request under the cluster user, and the original parameters.
unfoldable pub rewritten : Scope → Request → Node → Request × Values
unfolding send_to
rewritten s req n =
    let (params, orig) = purify_params s req in
    (
      send_to n.addr (record req {
        query = params;
        basic_auth = some (s.cluster_user.name, s.cluster_user.password);
        headers =
            insert (bytes "User-Agent") (user_agent s req)
              (delete (bytes "X-ClickHouse-Key") (delete (bytes "X-ClickHouse-User") req.headers));
      }),
      orig,
    )

-- The request to the chosen host, and the original parameters; `none` where there is no such host.
unfoldable pub decorate_request : Scope → Request → Option (Request × Values)
unfolding rewritten send_to
decorate_request s req = do
  n ← node_at s.cluster s.host
  some (
      if text_eq req.request_uri ping_endpoint
      then (send_to n.addr req, req.query)
      else rewritten s req n)
