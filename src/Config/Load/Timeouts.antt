-- ===== src/Config/Load/Timeouts.antt =====
-- The write timeout that `setDefaults` of config/config.go gives the servers.
use chproxy.Base.{
  All, Bool-cases, Dict, List, Option, Text, [], ap, arith, false, inl, inr, int_lt, is_empty,
  negsuc, pos, refl, subst, ℕ, ℤ, ◌*◌, ◌+◌, ◌<◌, ◌^◌, ◌∙◌, ◌∷◌, ◌≡◌, ◌≤◌,
}
use chproxy.Setup.Types.{UserConfig, ClusterConfig, Config, IpNet}
use chproxy.Scope.Types.{Networks}
use chproxy.Config.Load.{
  longest, longest_of_clusters, longest_of_users, larger, user_time, user_defaults,
  cluster_user_time, add64, bits, of_bits, response_time, set_server_max_response_time,
  set_defaults,
}

-- A natural number of nanoseconds below 2^62.
abbrev pub IsShort : ℤ → Type 0
IsShort t = (n : ℕ) × (t ≡ pos n) × (n < 2 ^ 62)

abbrev pub AtMost : (bound t : ℤ) → Type 0
AtMost bound t = int_lt bound t ≡ false

AtMost-refl : (a : ℤ) → AtMost a a
AtMost-refl (pos n) = ground arith
AtMost-refl (negsuc n) = ground arith

AtMost-trans : (a b c : ℤ) → AtMost a b → AtMost b c → AtMost a c
AtMost-trans (pos a) (pos b) (pos c) h k = ground arith
AtMost-trans (pos a) (pos b) (negsuc c) h k = refl
AtMost-trans (pos a) (negsuc b) (pos c) h k = cc
AtMost-trans (pos a) (negsuc b) (negsuc c) h k = refl
AtMost-trans (negsuc a) (pos b) c h k = cc
AtMost-trans (negsuc a) (negsuc b) (pos c) h k = cc
AtMost-trans (negsuc a) (negsuc b) (negsuc c) h k = ground arith

AtMost-larger : (a b : ℤ) → AtMost (larger a b) a × AtMost (larger a b) b
AtMost-larger (pos a) (pos b) = ground arith
AtMost-larger (pos a) (negsuc b) = ground arith
AtMost-larger (negsuc a) (pos b) = ground arith
AtMost-larger (negsuc a) (negsuc b) = ground arith

larger-IsShort : (a b : ℤ) → IsShort a → IsShort b → IsShort (larger a b)
larger-IsShort a b (m, em, hm) (n, en, hn) = elim (Bool-cases (int_lt a b)) [
  | inl e ↦ rw e (n, en, hn)
  | inr e ↦ rw e (m, em, hm)
]

module _ {ℓ} {A : Type ℓ} (time : A → ℤ) where
  longest-AtMost :
      (t : ℤ) (xs : List A)
      → AtMost (longest time t xs) t × All (λ x. AtMost (longest time t xs) (time x)) xs
  unfolding longest
  longest-AtMost t [] = (AtMost-refl t, tt)
  longest-AtMost t (x ∷ xs) =
      let (first, rest) = longest-AtMost (larger t (time x)) xs in
      let l = longest time (larger t (time x)) xs in
      let (of_t, of_x) = AtMost-larger t (time x) in
      (
        AtMost-trans l (larger t (time x)) t first of_t,
        (AtMost-trans l (larger t (time x)) (time x) first of_x, rest),
      )

  longest-IsShort :
      (t : ℤ) (xs : List A)
      → IsShort t
      → All (λ x. IsShort (time x)) xs
      → IsShort (longest time t xs)
  unfolding longest
  longest-IsShort t [] h hs = h
  longest-IsShort t (x ∷ xs) h (hx, hs) =
      longest-IsShort (larger t (time x)) xs (larger-IsShort t (time x) h hx) hs

abbrev AllShort : List ClusterConfig → Type 0
AllShort cs =
    All (λ (c : ClusterConfig). All (λ cu. IsShort (cluster_user_time cu)) c.cluster_users) cs

abbrev Covered : ℤ → List ClusterConfig → Type 0
Covered bound cs =
    All (λ (c : ClusterConfig). All (λ cu. AtMost bound (cluster_user_time cu)) c.cluster_users) cs

weaken :
    {A : Type 0} (time : A → ℤ) (l t : ℤ)
    → AtMost l t
    → (xs : List A) → All (λ x. AtMost t (time x)) xs
    → All (λ x. AtMost l (time x)) xs
weaken time l t h [] hs = tt
weaken time l t h (x ∷ xs) (hx, hs) = (AtMost-trans l t (time x) h hx, weaken time l t h xs hs)

weaken_clusters : (l t : ℤ) → AtMost l t → (cs : List ClusterConfig) → Covered t cs → Covered l cs
weaken_clusters l t h [] hs = tt
weaken_clusters l t h (c ∷ cs) (hc, hs) =
    (weaken cluster_user_time l t h c.cluster_users hc, weaken_clusters l t h cs hs)

clusters-AtMost :
    (t : ℤ) (cs : List ClusterConfig)
    → AtMost (longest_of_clusters t cs) t × Covered (longest_of_clusters t cs) cs
unfolding longest_of_clusters
clusters-AtMost t [] = (AtMost-refl t, tt)
clusters-AtMost t (c ∷ cs) =
    let t' = longest cluster_user_time t c.cluster_users in
    let l = longest_of_clusters t' cs in
    let (first, rest) = clusters-AtMost t' cs in
    let (of_t, of_users) = longest-AtMost cluster_user_time t c.cluster_users in
    (
      AtMost-trans l t' t first of_t,
      (weaken cluster_user_time l t' first c.cluster_users of_users, rest),
    )

clusters-IsShort :
    (t : ℤ) (cs : List ClusterConfig) → IsShort t → AllShort cs → IsShort (longest_of_clusters t cs)
unfolding longest_of_clusters
clusters-IsShort t [] h hs = h
clusters-IsShort t (c ∷ cs) h (hc, hs) =
    clusters-IsShort (longest cluster_user_time t c.cluster_users) cs
      (longest-IsShort cluster_user_time t c.cluster_users h hc) hs

response_time-short : (n : ℕ) → n < 2 ^ 62 → response_time (pos n) ≡ pos (n + 60 * 10 ^ 9)
unfolding response_time add64 bits of_bits
response_time-short n h = ground arith

-- Covered by a write timeout, with the minute for the response.
abbrev pub IsCovered : (w : ℕ) → List ClusterConfig → List UserConfig → Type 0
IsCovered w clusters users =
    All
      (λ (c : ClusterConfig).
        All (λ cu. (n : ℕ) × (cluster_user_time cu ≡ pos n) × (n + 60 * 10 ^ 9 ≤ w))
          c.cluster_users)
      clusters
    × All (λ u. (n : ℕ) × (user_time (user_defaults u) ≡ pos n) × (n + 60 * 10 ^ 9 ≤ w)) users

cover :
    {A : Type 0} (time : A → ℤ) (l : ℕ) (xs : List A)
    → All (λ x. IsShort (time x)) xs
    → All (λ x. AtMost (pos l) (time x)) xs
    → All (λ x. (n : ℕ) × (time x ≡ pos n) × (n + 60 * 10 ^ 9 ≤ l + 60 * 10 ^ 9)) xs
cover time l [] hs ks = tt
cover time l (x ∷ xs) ((n, e, _), hs) (k, ks) =
    let k' : AtMost (pos l) (pos n) = subst (AtMost (pos l)) e k in
    let le : n + 60 * 10 ^ 9 ≤ l + 60 * 10 ^ 9 = ground arith in ((n, e, le), cover time l xs hs ks)

cover_clusters :
    (l : ℕ) (cs : List ClusterConfig)
    → AllShort cs
    → Covered (pos l) cs
    → All
        (λ (c : ClusterConfig).
          All
            (λ cu. (n : ℕ) × (cluster_user_time cu ≡ pos n) × (n + 60 * 10 ^ 9 ≤ l + 60 * 10 ^ 9))
            c.cluster_users)
        cs
cover_clusters l [] hs ks = tt
cover_clusters l (c ∷ cs) (h, hs) (k, ks) =
    (cover cluster_user_time l c.cluster_users h k, cover_clusters l cs hs ks)

module _ (parse_cidr : Text → Option IpNet) (networks : List IpNet → Networks)
    (reg : Dict (List IpNet)) where
  set_defaults-server :
      (c : Config) {c' : Config}
      → set_defaults parse_cidr networks reg c ≡ inr c'
      → c'.server
        ≡ set_server_max_response_time
            (longest_of_users (longest_of_clusters (pos 0) c.clusters) c.users)
            c.server
  unfolding set_defaults
  set_defaults-server c e = ground arith

  -- Where no write timeout is set for http, the server gets one that covers every user of the proxy
  -- and of a cluster: its max_execution_time and its max_queue_time together, as they are configured
  -- or by default, and a minute for the response, as long as no such sum overflows or is longer than
  -- 2^62 nanoseconds. The 10 seconds that a request waits where max_queue_time is 0 are not counted.
  pub set_defaults-IsCovered :
      (c : Config) {c' : Config}
      → set_defaults parse_cidr networks reg c ≡ inr c'
      → is_empty c.server.http.listen_addr ≡ false
      → c.server.http.timeouts.write_timeout ≡ pos 0
      → AllShort c.clusters
      → All (λ u. IsShort (user_time (user_defaults u))) c.users
      → (w : ℕ) × (c'.server.http.timeouts.write_timeout ≡ pos w) × IsCovered w c.clusters c.users
  unfolding set_server_max_response_time longest_of_users
  set_defaults-IsCovered c e listens unset short_clusters short_users =
      let time = λ (u : UserConfig). user_time (user_defaults u) in
      let t1 = longest_of_clusters (pos 0) c.clusters in
      let l1 = clusters-IsShort (pos 0) c.clusters (0, refl, omega arith) short_clusters in
      let (l, el, hl) = longest-IsShort time t1 c.users l1 short_users in
      let (first, users) = longest-AtMost time t1 c.users in
      let (_, clusters) = clusters-AtMost (pos 0) c.clusters in
      let d = ap response_time el ∙ response_time-short l hl in
      let server = set_defaults-server c e in
      let w = l + 60 * 10 ^ 9 in
      let users' = subst (λ x. All (λ u. AtMost x (time u)) c.users) el users in
      let clusters' =
        weaken_clusters (pos l) t1 (subst (λ x. AtMost x t1) el first) c.clusters clusters in
      (
        w,
        ap (λ s. s.http.timeouts.write_timeout) server ∙ ground (arith, listens, unset, d),
        (
          cover_clusters l c.clusters short_clusters clusters',
          cover time l c.users short_users users',
        ),
      )
