-- ===== src/Config/Secrets/Hidden.antt =====
-- What is printed of a configuration does not tell its passwords (`withoutSensitiveInfo` of
-- config/config.go).
use chproxy.Base.{
  Bool-cases, List, Text, [], ap, if◌then◌else◌, inl, inr, is_empty, map, refl, ℕ, ◌∷◌, ◌≡◌,
}
use chproxy.Setup.Types.{UserConfig, ClusterUserConfig, ClusterConfig, CacheConfig, Config}
use chproxy.Config.Secrets.{
  hide_user, hide_cluster_user, hide_cluster, hide_cache, psw_place_holder, without_sensitive_info,
}

-- Other passwords, for a user, a cluster's user, the user that kills queries, and a Redis.
pub record Passwords : Type 0 where
  pub of_user : UserConfig → Text
  pub of_cluster_user : ClusterUserConfig → Text
  pub of_killer : ClusterConfig → Text
  pub of_redis : CacheConfig → ℕ × Text  -- not empty: a first byte, and the others

abbrev change_user : Passwords → UserConfig → UserConfig
change_user p u = record u { password = p.of_user u }

abbrev change_cluster_user : Passwords → ClusterUserConfig → ClusterUserConfig
change_cluster_user p u = record u { password = p.of_cluster_user u }

abbrev change_cluster : Passwords → ClusterConfig → ClusterConfig
change_cluster p c = record c {
  kill_query_user_password =
      if is_empty c.kill_query_user_name then c.kill_query_user_password else p.of_killer c;
  cluster_users = map (change_cluster_user p) c.cluster_users;
}

abbrev change_cache : Passwords → CacheConfig → CacheConfig
change_cache p c = record c {
  redis_password =
      if is_empty c.redis_password then c.redis_password else (p.of_redis c).0 ∷ (p.of_redis c).1;
}

-- The configuration with other passwords. A Redis without a password keeps none, and the user that
-- kills queries keeps its own one if it has no name.
abbrev pub change_passwords : Passwords → Config → Config
change_passwords p c = record c {
  users = map (change_user p) c.users;
  clusters = map (change_cluster p) c.clusters;
  caches = map (change_cache p) c.caches;
}

map-hidden {ℓ} :
    {A : Type ℓ} (hide change : A → A)
    → ((x : A) → hide (change x) ≡ hide x)
    → (xs : List A) → map hide (map change xs) ≡ map hide xs
map-hidden hide change h [] = refl
map-hidden hide change h (x ∷ xs) = rw (h x, map-hidden hide change h xs) refl

hide_cluster-change :
    (p : Passwords) (c : ClusterConfig) → hide_cluster (change_cluster p c) ≡ hide_cluster c
unfolding hide_cluster
hide_cluster-change p c =
    let same = map-hidden hide_cluster_user (change_cluster_user p) (λ u. refl) c.cluster_users in
    elim (Bool-cases (is_empty c.kill_query_user_name)) [
      | inl e ↦ rw (e, same, hide_cluster) refl
      | inr e ↦ rw (e, same, hide_cluster) refl
    ]

hidden_alike :
    (t other : Text) (b : ℕ)
    → let changed = if is_empty t then t else b ∷ other in
      (if is_empty changed then changed else psw_place_holder)
      ≡ (if is_empty t then t else psw_place_holder)
hidden_alike [] other b = refl
hidden_alike (x ∷ t) other b = refl

hide_cache-change : (p : Passwords) (c : CacheConfig) → hide_cache (change_cache p c) ≡ hide_cache c
unfolding hide_cache
hide_cache-change p c =
    ap (λ t. record c { redis_password = t })
      (hidden_alike c.redis_password (p.of_redis c).1 (p.of_redis c).0)

-- Two configurations that differ only in the passwords of users, of clusters' users, of named users
-- that kill queries, and of Redis caches with a password are printed alike.
pub without_sensitive_info-change_passwords :
    (p : Passwords) (c : Config)
    → without_sensitive_info (change_passwords p c) ≡ without_sensitive_info c
unfolding without_sensitive_info
without_sensitive_info-change_passwords p c =
    rw
      (
        map-hidden hide_user (change_user p) (λ u. refl) c.users,
        map-hidden hide_cluster (change_cluster p) (hide_cluster-change p) c.clusters,
        map-hidden hide_cache (change_cache p) (hide_cache-change p) c.caches,
      )
      refl
