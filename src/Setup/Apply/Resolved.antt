-- ===== src/Setup/Apply/Resolved.antt =====
-- After `applyConfig` every user has its cluster and its cluster user (proxy.go, scope.go).
use chproxy.Base.{
  Bool, Bool-cases, Dict, List, Option, Option-cases, Text, [], ap, arith, inl, inr, insert,
  is_some, lookup, lookup-insert, pos, refl, some, subst, text_eq, text_eq→eq, true, ◌∷◌, ◌≡◌,
}
use chproxy.Topology.{Address}
use chproxy.Scope.Types.{AsyncCache, ParamsRegistry, User, Cluster}
use chproxy.Setup.Types.{
  UserConfig, CacheConfig, Config, Result, ok, err, panic, ReverseProxy, >>=-split,
}
use chproxy.Setup.Build.{mark_wildcarded, new_user, new_users, params_from_config, new_clusters}
use chproxy.Setup.Apply.{
  cluster_user_of, prepare, apply_config, Prepared, transactions_timeout, install, init_temp_caches,
  after_clusters, set_early, validate_no_wildcarded_user_for_heartbeat,
}

-- A user of a cluster, by the two names.
abbrev pub resolves : Dict Cluster → (cluster user : Text) → Bool
resolves clusters cluster user = is_some (cluster_user_of (lookup cluster clusters) user)

abbrev pub IsResolved : Dict Cluster → Dict User → Type 0
IsResolved clusters users =
    (name : Text) (u : User)
    → lookup name users ≡ some u
    → resolves clusters u.to_cluster u.to_user ≡ true

mark-resolves :
    (cluster user c u : Text) (clusters : Dict Cluster)
    → resolves clusters c u ≡ true
    → resolves (mark_wildcarded cluster user clusters) c u ≡ true
unfolding mark_wildcarded
mark-resolves cluster user c u clusters h = elim (Option-cases (lookup cluster clusters)) [
  | inl e ↦ rw (e, mark_wildcarded) h
  | inr (d, e) ↦ elim (Option-cases (lookup user d.users)) [
    | inl e' ↦ rw (e, e', mark_wildcarded) h
    | inr (cu, e') ↦
        let users' = insert user (record cu { is_wildcarded = true }) d.users in
        let d' = record d { users = users' } in
        rw (e, e', mark_wildcarded, lookup-insert c cluster d' clusters)
          (elim (Bool-cases (text_eq cluster c)) [
            | inr other ↦ rw other h
            | inl same ↦
                let ec : lookup c clusters ≡ some d = rw (← text_eq→eq cluster c same) e in
                rw (same, lookup-insert u user (record cu { is_wildcarded = true }) d.users)
                  (ground arith)
          ])
  ]
]

module _ (caches : Dict AsyncCache) (params : Dict ParamsRegistry) where
  -- What a new user does to the clusters, and where it points.
  new_user-resolves :
      (clusters clusters' : Dict Cluster) (u : UserConfig) (usr : User)
      → new_user caches params clusters u ≡ ok (clusters', usr)
      → (resolves clusters' usr.to_cluster usr.to_user ≡ true)
        × ((c v : Text) → resolves clusters c v ≡ true → resolves clusters' c v ≡ true)
  unfolding new_user
  new_user-resolves clusters clusters' u usr h = (
    ground (arith, mark-resolves u.to_cluster u.to_user u.to_cluster u.to_user clusters),
    λ c v r. ground (arith, mark-resolves u.to_cluster u.to_user c v clusters),
  )

  -- A user that was put in resolves, and so do the others.
  insert-IsResolved :
      (name : Text) (usr : User) (clusters : Dict Cluster) (users : Dict User)
      → resolves clusters usr.to_cluster usr.to_user ≡ true
      → IsResolved clusters users
      → IsResolved clusters (insert name usr users)
  insert-IsResolved name usr clusters users h r k u e =
      ground (arith, lookup-insert k name usr users, r k u)

  new_users-IsResolved :
      (us : List UserConfig) (clusters clusters' : Dict Cluster) (users users' : Dict User)
      → IsResolved clusters users
      → new_users caches params us clusters users ≡ ok (clusters', users')
      → IsResolved clusters' users'
  unfolding new_users
  new_users-IsResolved [] clusters clusters' users users' r h = λ k u e. ground (arith, r k u)
  new_users-IsResolved (u ∷ us) clusters clusters' users users' r h =
      elim (Bool-cases (is_some (lookup u.name users))) [
        | inl dup ↦ cc (rw (dup, new_users) at h)
        | inr new ↦
            let (s, made, rest) =
              >>=-split (new_user caches params clusters u) _ (rw (new, new_users) at h) in
            let (here, kept) = new_user-resolves clusters s.0 u s.1 made in
            new_users-IsResolved us s.0 clusters' (insert u.name s.1 users) users'
              (insert-IsResolved u.name s.1 s.0 users here
                (λ k v e. kept v.to_cluster v.to_user (r k v e)))
              rest
      ]

ok-injective : {p q : Prepared} → ◌≡◌ {A = Result Prepared} (ok p) (ok q) → p ≡ q
ok-injective {p} h = ap (λ r. elim r [ ok x ↦ x | _ ↦ p ]) h

prepare-IsResolved :
    (open_store : CacheConfig → Bool) (cfg : Config) (clusters : Dict Cluster) {p : Prepared}
    → prepare open_store cfg clusters ≡ ok p
    → IsResolved p.1 p.2
unfolding prepare lookup
prepare-IsResolved open_store cfg clusters {p} h =
    let t = transactions_timeout (pos 0) cfg.users in
    let (caches, _, h1) = >>=-split (init_temp_caches open_store t cfg.caches []) _ h in
    let (params, _, h2) = >>=-split (params_from_config cfg.param_groups []) _ h1 in
    let (r, made, h3) = >>=-split (new_users caches params cfg.users clusters []) _ h2 in
    let (_, _, h4) = >>=-split (validate_no_wildcarded_user_for_heartbeat r.0 cfg.clusters) _ h3 in
    let here = new_users-IsResolved caches params cfg.users clusters r.0 [] r.1 none_yet made in
    let e : (caches, r.0, r.1) ≡ p = ok-injective h4 in
    subst (λ (q : Prepared). IsResolved q.1 q.2) e here
  where
    none_yet : IsResolved clusters []
    none_yet k u e = cc

module _ (parse_url : Text → Option Address) (open_store : CacheConfig → Bool) where
  -- When applyConfig succeeds, every user that the proxy then has points to a cluster that the
  -- proxy has, and to a cluster user of it.
  pub apply_config-IsResolved :
      (cfg : Config) (rp : ReverseProxy)
      → (apply_config parse_url open_store cfg rp).1 ≡ ok tt
      → let q = (apply_config parse_url open_store cfg rp).0 in IsResolved q.clusters q.users
  unfolding apply_config
  apply_config-IsResolved cfg rp h = clustered (new_clusters parse_url cfg.clusters []) h
    where
      installed :
          (cs : Dict Cluster) (q : ReverseProxy) (r : Result Prepared)
          → prepare open_store cfg cs ≡ r
          → (install q r).1 ≡ ok tt
          → IsResolved (install q r).0.clusters (install q r).0.users
      installed cs q (ok p) e h = prepare-IsResolved open_store cfg cs {p = p} e
      installed cs q (err x) e h = cc
      installed cs q panic e h = cc

      clustered :
          (r : Result (Dict Cluster))
          → (after_clusters parse_url open_store cfg rp r).1 ≡ ok tt
          → let q = (after_clusters parse_url open_store cfg rp r).0 in
            IsResolved q.clusters q.users
      clustered (ok cs) h = installed cs (set_early cfg rp) (prepare open_store cfg cs) refl h
      clustered (err x) h = cc
      clustered panic h = cc
