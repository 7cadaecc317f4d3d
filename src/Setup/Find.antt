-- ===== src/Setup/Find.antt =====
-- proxy.go: `getUser`, `findWildcardedUserInformation`, `generateWildcardedUserInformation` and
-- `getScope`, with `newScope` of scope.go.
pub mod Credentials
use chproxy.Base.{
  Bool, List, Option, Text, [], false, has_prefix, has_suffix, if◌then◌else◌, is_empty, length,
  lookup, none, not, some, text_eq, true, ℕ, ◌&&◌, ◌==◌, ◌>>=◌, ◌||◌, ◌∷◌,
}
use chproxy.Http.{Request}
use chproxy.Utils.Auth.{get_auth, get_session_id, get_session_timeout, default_user}
use chproxy.Utils.Query.{Decompressor, get_full_query}
use chproxy.Scope.Types.{User, ClusterUser, Cluster, Scope}
use chproxy.Scope.Pick.{get_host, get_host_sticky}
use chproxy.Setup.Types.{ReverseProxy}
use chproxy.Setup.Build.{deep_copy}

-- What `getUser` returns with `found`, and a panic on a nil pointer.
pub record Found : Type 0 where
  pub user : User
  pub cluster : Cluster
  pub cluster_user : ClusterUser

pub data Answer : Type 0 where
  found : Found → Answer
  not_found nil_pointer : Answer

unfoldable pub before_star : Text → Text
before_star [] = []
before_star (c ∷ t) = if c == b'*' then [] else c ∷ before_star t

unfoldable pub behind_star : Text → Option Text
unfolding before_star
behind_star [] = none
behind_star (c ∷ t) = if c == b'*' then some (before_star t) else behind_star t

-- `strings.Split(name, "*")`, its first two parts.
unfoldable pub split_star : Text → Text × Option Text
unfolding before_star behind_star
split_star name = (before_star name, behind_star name)

-- A new cluster user with the client's own name and password.
pub as_client : (name password : Text) → ClusterUser → ClusterUser
unfolding deep_copy
as_client name password cu = record (deep_copy cu) { name = name; password = password }

pub generate_wildcarded_user_information : ReverseProxy → User → (name password : Text) → Answer
unfolding as_client
generate_wildcarded_user_information rp u name password = elim (lookup u.to_cluster rp.clusters) [
  | none ↦ nil_pointer
  | some c ↦ elim (lookup u.to_user c.users) [
    | none ↦ not_found
    | some cu ↦ found (record { user = u; cluster = c; cluster_user = as_client name password cu })
  ]
]

-- Does the pattern of a wildcarded user, split at its star, fit a name? `none` is a panic.
unfoldable pub fits_pattern : (Text × Option Text) → Text → Option Bool
fits_pattern (prefix, none) name = none
fits_pattern (prefix, some suffix) name =
    if is_empty prefix && is_empty suffix
    then some true
    else if is_empty prefix
    then some (has_suffix name suffix)
    else some (is_empty suffix && has_prefix name prefix)

-- The loop over the users, in the order in which the map gives them.
unfoldable pub find_wildcarded_user_information :
    ReverseProxy → List (Text × User) → (name password : Text) → Answer
unfolding fits_pattern split_star
find_wildcarded_user_information rp [] name password = not_found
find_wildcarded_user_information rp ((key, u) ∷ us) name password =
    let rest = find_wildcarded_user_information rp us name password in
    if u.is_wildcarded
    then elim (fits_pattern (split_star u.name) name) [
      | none ↦ nil_pointer
      | some fits ↦ if fits then generate_wildcarded_user_information rp u name password else rest
    ]
    else rest

-- A user of the map: the password decides.
known_user : ReverseProxy → User → (password : Text) → Answer
known_user rp u password = elim (lookup u.to_cluster rp.clusters) [
  | none ↦ nil_pointer
  | some c ↦ elim (lookup u.to_user c.users) [
    | none ↦ if text_eq u.password password then nil_pointer else not_found
    | some cu ↦
        if text_eq u.password password
        then found (record { user = u; cluster = c; cluster_user = cu })
        else not_found
  ]
]

unfoldable pub get_user : ReverseProxy → (name password : Text) → Answer
unfolding known_user
get_user rp name password = elim (lookup name rp.users) [
  | some u ↦ known_user rp u password
  | none ↦
      if is_empty name || text_eq name default_user
      then not_found
      else if rp.has_wildcarded
      then find_wildcarded_user_information rp rp.users name password
      else not_found
]

-- Why a request gets no scope, with its status.
pub data Denied : Type 0 where
  unauthorized no_http no_https user_network cluster_user_network unreadable_query : Denied

unfoldable pub status_of : Denied → ℕ
status_of unauthorized = 401
status_of unreadable_query = 400
status_of _ = 403

pub data Entry : Type 0 where
  entered : Scope → Entry
  denied : Denied → Entry
  entry_panic : Entry

module _ (hash : Text → ℕ) (decompress : Decompressor → Text → Option Text) where
  -- A host is taken by load first, and then by the session, if there is one.
  new_scope : ℕ → Text → Request → Found → Option Scope
  new_scope id local_addr req f = do
    let session = get_session_id req
    (h, c) ← get_host f.cluster
    (h', c') ← (if is_empty session then some (h, c) else get_host_sticky hash session c)
    some (record {
      id = id;
      host = h';
      cluster = c';
      user = f.user;
      cluster_user = f.cluster_user;
      session_id = session;
      session_timeout = get_session_timeout req;
      remote_addr = req.remote_addr;
      local_addr = local_addr;
      canceled = false;
      request_packet_size = 0;
    })

  abbrev with_query : Option Text → Scope → Entry
  with_query none s = denied unreadable_query
  with_query (some q) s = entered (record s { request_packet_size = length q })

  enter : ℕ → Text → Request → Found → Entry
  unfolding new_scope
  enter id local_addr req f =
      if f.user.deny_http && not req.is_tls
      then denied no_http
      else if f.user.deny_https && req.is_tls
      then denied no_https
      else if not (f.user.allowed_networks req.remote_addr)
      then denied user_network
      else if not (f.cluster_user.allowed_networks req.remote_addr)
      then denied cluster_user_network
      else elim (new_scope id local_addr req f) [
        | none ↦ entry_panic
        | some s ↦ with_query (get_full_query decompress req) s
      ]

  unfoldable pub get_scope : ReverseProxy → ℕ → Text → Request → Entry
  unfolding enter
  get_scope rp id local_addr req =
      let (name, password) = get_auth req in
      elim (get_user rp name password) [
        | nil_pointer ↦ entry_panic
        | not_found ↦ denied unauthorized
        | found f ↦ enter id local_addr req f
      ]
