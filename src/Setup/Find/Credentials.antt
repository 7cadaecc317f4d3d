-- ===== src/Setup/Find/Credentials.antt =====
-- Whom `getUser` and `getScope` of proxy.go let in.
use chproxy.Base.{
  Bool-cases, List, Option, Option-cases, Text, [], ap, arith, false, inl, inr, is_empty, length,
  lookup, magnitude, none, refl, some, text_eq_iff, true, ℕ, ◌↔◌, ◌∙◌, ◌∷◌, ◌≡◌, ◌≢◌, ◌⊎◌,
}
use chproxy.Http.{Request}
use chproxy.Utils.Auth.{get_auth, default_user}
use chproxy.Utils.Query.{Decompressor, get_full_query}
use chproxy.Scope.Types.{User, Scope}
use chproxy.Setup.Types.{ReverseProxy, ClusterUserConfig}
use chproxy.Setup.Build.{new_cluster_user, make_chan}
use chproxy.Setup.Apply.Resolved.{IsResolved}
use chproxy.Setup.Find.{
  Found, Answer, found, not_found, nil_pointer, known_user, get_user,
  find_wildcarded_user_information, generate_wildcarded_user_information, as_client, fits_pattern,
  split_star, entered, enter, get_scope, new_scope,
}

-- A user of the map, with its cluster and its cluster user.
abbrev pub Known : ReverseProxy → Text → Text → Found → Type 0
Known rp name password f =
    (lookup name rp.users ≡ some f.user)
    × (f.user.password ≡ password)
    × (lookup f.user.to_cluster rp.clusters ≡ some f.cluster)
    × (lookup f.user.to_user f.cluster.users ≡ some f.cluster_user)

-- A wildcarded user whose pattern fits, under the name and the password of the client.
abbrev pub Wildcarded : ReverseProxy → Text → Text → Found → Type 0
Wildcarded rp name password f =
    (f.user.is_wildcarded ≡ true)
    × (fits_pattern (split_star f.user.name) name ≡ some true)
    × (f.cluster_user.name ≡ name)
    × (f.cluster_user.password ≡ password)

generate-Wildcarded :
    (rp : ReverseProxy) (u : User) (name password : Text) {f : Found}
    → generate_wildcarded_user_information rp u name password ≡ found f
    → (f.user ≡ u) × (f.cluster_user.name ≡ name) × (f.cluster_user.password ≡ password)
unfolding generate_wildcarded_user_information
generate-Wildcarded rp u name password h = ground arith

find-Wildcarded :
    (rp : ReverseProxy) (us : List (Text × User)) (name password : Text) {f : Found}
    → find_wildcarded_user_information rp us name password ≡ found f
    → Wildcarded rp name password f
unfolding find_wildcarded_user_information
find-Wildcarded rp [] name password h = cc
find-Wildcarded rp ((key, u) ∷ us) name password {f} h = elim (Bool-cases u.is_wildcarded) [
  | inr plain ↦
      find-Wildcarded rp us name password (rw (plain, find_wildcarded_user_information) at h)
  | inl wild ↦ elim (Option-cases (fits_pattern (split_star u.name) name)) [
    | inl no_star ↦ cc (rw (wild, no_star, find_wildcarded_user_information) at h)
    | inr (false, e) ↦
        find-Wildcarded rp us name password (rw (wild, e, find_wildcarded_user_information) at h)
    | inr (true, e) ↦
        let (same, n, p) =
          generate-Wildcarded rp u name password
            (rw (wild, e, find_wildcarded_user_information) at h) in
        (ap (λ v. v.is_wildcarded) same ∙ wild, rw same e, n, p)
  ]
]

known_user-Known :
    (rp : ReverseProxy) (name password : Text) (u : User) {f : Found}
    → lookup name rp.users ≡ some u
    → known_user rp u password ≡ found f
    → Known rp name password f
unfolding known_user
known_user-Known rp name password u {f} e h = ground (arith, text_eq_iff u.password password)

-- Where getUser finds a user, either the map has one of that name, with that password, and the
-- cluster and the cluster user are its own; or it has none, the name is neither empty nor `default`,
-- there are wildcarded users, and the user is one whose pattern fits the name, with the client's own
-- name and password for ClickHouse.
pub get_user-found :
    (rp : ReverseProxy) (name password : Text) {f : Found}
    → get_user rp name password ≡ found f
    → Known rp name password f
      ⊎ ((lookup name rp.users ≡ none)
          × (is_empty name ≡ false)
          × (name ≢ default_user)
          × (rp.has_wildcarded ≡ true)
          × Wildcarded rp name password f)
unfolding get_user
get_user-found rp name password {f} h = elim (Option-cases (lookup name rp.users)) [
  | inr (u, e) ↦ inl (known_user-Known rp name password u e (rw (e, get_user) at h))
  | inl e ↦
      ground
        (arith, find-Wildcarded rp rp.users name password {f = f}, text_eq_iff name default_user)
]

-- With the users and the clusters of a configuration that was applied, a user of the map is found
-- exactly when the password is right, and getUser meets no nil pointer on the way.
get_user-resolved :
    (rp : ReverseProxy) (name password : Text) (u : User)
    → IsResolved rp.clusters rp.users
    → lookup name rp.users ≡ some u
    → (get_user rp name password ≢ nil_pointer)
      × ((u.password ≡ password) ↔ ((f : Found) × (get_user rp name password ≡ found f)))
unfolding get_user known_user
get_user-resolved rp name password u r e = elim (Option-cases (lookup u.to_cluster rp.clusters)) [
  | inl no_cluster ↦ cc (rw no_cluster at (r name u e))
  | inr (c, ec) ↦ elim (Option-cases (lookup u.to_user c.users)) [
    | inl no_user ↦ cc (rw (ec, no_user) at (r name u e))
    | inr (cu, eu) ↦
        let f : Found = record { user = u; cluster = c; cluster_user = cu } in
        (
          ground (arith, text_eq_iff u.password password),
          (
            λ same. (f, ground (arith, text_eq_iff u.password password)),
            λ (g, eg). ground (arith, text_eq_iff u.password password),
          ),
        )
  ]
]

module _ (hash : Text → ℕ) (decompress : Decompressor → Text → Option Text) where
  -- What holds of a scope that a request was given.
  pub record IsAdmitted (req : Request) (f : Found) (s : Scope) (q : Text) : Type 0 where
    pub user : s.user ≡ f.user
    pub cluster_user : s.cluster_user ≡ f.cluster_user
    http : (f.user.deny_http ≡ false) ⊎ (req.is_tls ≡ true)
    https : (f.user.deny_https ≡ false) ⊎ (req.is_tls ≡ false)
    pub user_network : f.user.allowed_networks req.remote_addr ≡ true
    pub cluster_user_network : f.cluster_user.allowed_networks req.remote_addr ≡ true
    pub query : get_full_query decompress req ≡ some q
    pub size : s.request_packet_size ≡ length q

  new_scope-users :
      (id : ℕ) (local_addr : Text) (req : Request) (f : Found) {s : Scope}
      → new_scope hash decompress id local_addr req f ≡ some s
      → (s.user ≡ f.user) × (s.cluster_user ≡ f.cluster_user)
  unfolding new_scope
  new_scope-users id local_addr req f h = ground arith

  enter-entered :
      (id : ℕ) (local_addr : Text) (req : Request) (f : Found) {s : Scope}
      → enter hash decompress id local_addr req f ≡ entered s
      → (q : Text) × IsAdmitted req f s q
  unfolding enter
  enter-entered id local_addr req f {s} h =
      elim (Option-cases (new_scope hash decompress id local_addr req f)) [
        | inl e ↦ ground arith
        | inr (t, e) ↦
            let same = new_scope-users id local_addr req f e in
            elim (Option-cases (get_full_query decompress req)) [
              | inl e' ↦ ground arith
              | inr (q, e') ↦ (q, ground arith)
            ]
      ]

  -- A request gets a scope only as a user that getUser found by the credentials of the request, over
  -- a transport that the user is not denied, from an address in the networks of the user and of the
  -- cluster user, and with a query that could be read, whose length becomes the size of its packet.
  pub get_scope-entered :
      (rp : ReverseProxy) (id : ℕ) (local_addr : Text) (req : Request) {s : Scope}
      → get_scope hash decompress rp id local_addr req ≡ entered s
      → (f : Found) × (q : Text) × (get_user rp (get_auth req).0 (get_auth req).1 ≡ found f)
        × IsAdmitted req f s q
  unfolding get_scope enter
  get_scope-entered rp id local_addr req {s} h =
      go (get_user rp (get_auth req).0 (get_auth req).1) refl
    where
      go :
          (a : Answer)
          → get_user rp (get_auth req).0 (get_auth req).1 ≡ a
          → (f : Found) × (q : Text) × (get_user rp (get_auth req).0 (get_auth req).1 ≡ found f)
            × IsAdmitted req f s q
      go nil_pointer e = cc (rw (e, get_scope) at h)
      go not_found e = cc (rw (e, get_scope) at h)
      go (found f) e =
          let (q, r) = enter-entered id local_addr req f (rw (e, get_scope) at h) in (f, q, e, r)

-- The copy that a wildcarded user works with: its queue is as long as the queue time in nanoseconds
-- and not as long as max_queue_size, it has no limit on packets, and its counts start at 0 for
-- every request, so that its limits bound no two requests together.
pub as_client_lem :
    (name password : Text) (cu : ClusterUserConfig)
    → let copy = as_client name password (new_cluster_user cu) in
      (copy.queue_ch ≡ make_chan (magnitude cu.max_queue_time))
      × ((new_cluster_user cu).queue_ch ≡ make_chan cu.max_queue_size)
      × (copy.tokens_burst ≡ 0)
      × (copy.query_counter ≡ 0)
      × (copy.rate_limiter ≡ 0)
      × (copy.max_concurrent_queries ≡ cu.max_concurrent_queries)
unfolding as_client new_cluster_user
as_client_lem name password cu = (refl, refl, refl, refl, refl, refl)
