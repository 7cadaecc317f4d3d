-- ===== src/Scope/Pick.antt =====
-- scope.go: `isActive` and `load` of a replica, `getReplica`, `getHost`, and the same by session.
-- The two scans are one function over a list of items. `none` is a panic: an index out of range,
-- or the remainder by zero of an empty list.
pub mod Least
pub mod Hosts
pub mod Sticky
use chproxy.Base.{
  Bool, List, Option, Text, [], any, false, get_elem?, if◌then◌else◌, inc32, length, ltb, max_u32,
  modify, none, some, suc, true, u32, zero, ℕ, ◌%◌, ◌+◌, ◌-◌, ◌==◌, ◌>>=◌, ◌∷◌,
}
use chproxy.Topology.{Node, current_load}
use chproxy.Scope.Types.{Replica, Cluster, HostRef}

module _ {ℓ} {A : Type ℓ} (is_active : A → Bool) (load : A → ℕ) (items : List A) where
  -- The loop of `getHost` from offset `i`: the chosen index so far, and its load.
  scan : (idx rounds i best reqs : ℕ) → Option ℕ
  scan idx zero i best reqs = some best
  scan idx (suc k) i best reqs =
      let t = u32 (idx + i) % u32 (length items) in
      elim (get_elem? items t) [
        | none ↦ none
        | some x ↦ elim (is_active x) [
          | false ↦ scan idx k (i + 1) best reqs
          | true ↦ elim (load x == 0) [
            | true ↦ some t
            | false ↦ elim (ltb (load x) reqs) [
              | true ↦ scan idx k (i + 1) t (load x)
              | false ↦ scan idx k (i + 1) best reqs
            ]
          ]
        ]
      ]

  -- From the item at `idx`, which counts as fully loaded when it is inactive.
  pick_from : (n idx : ℕ) → A → Option ℕ
  unfolding scan
  pick_from n idx x =
      let reqs = if is_active x then load x else max_u32 in
      elim (reqs == 0) [ true ↦ some idx | false ↦ scan idx (n - 1) 1 idx reqs ]

  -- The item that the counter's next value points to, and the counter.
  pub pick : ℕ → Option (ℕ × ℕ)
  unfolding pick_from
  pick next =
      let n = u32 (length items) in
      let c = inc32 next in
      if n == 1
      then some (0, c)
      else if n == 0
      then none
      else do x ← get_elem? items (c % n); i ← pick_from n (c % n) x; some (i, c)

module _ {ℓ} {A : Type ℓ} (is_active : A → Bool) (items : List A) where
  -- The loop of `getHostSticky`: every round looks at the same candidate.
  scan_sticky : (candidate rounds fallback : ℕ) → Option ℕ
  scan_sticky candidate zero fallback = some fallback
  scan_sticky candidate (suc k) fallback = elim (get_elem? items candidate) [
    | none ↦ none
    | some x ↦ elim (is_active x) [
      | true ↦ some candidate
      | false ↦ scan_sticky candidate k fallback
    ]
  ]

  pick_sticky : (hashed : ℕ) → ℕ → Option (ℕ × ℕ)
  unfolding scan_sticky
  pick_sticky hashed next =
      let n = u32 (length items) in
      let c = inc32 next in
      if n == 1
      then some (0, c)
      else if n == 0
      then none
      else do x ← get_elem? items (c % n); i ← scan_sticky (hashed % n) (n - 1) (c % n); some (i, c)

unfoldable pub replica_is_active : Replica → Bool
replica_is_active r = any (λ (h : Node). h.active) r.hosts

sum_loads : ℕ → List Node → ℕ
sum_loads reqs [] = reqs
sum_loads reqs (h ∷ hs) = sum_loads (u32 (reqs + current_load h)) hs

unfoldable pub replica_load : Replica → ℕ
unfolding sum_loads
replica_load r = sum_loads 0 r.hosts

pub get_replica : Cluster → Option (ℕ × Cluster)
unfolding pick
get_replica c = do
  (i, next) ← pick replica_is_active replica_load c.replicas c.next_replica_idx
  some (i, record c { next_replica_idx = next })

pub replica_get_host : Replica → Option (ℕ × Replica)
unfolding pick
replica_get_host r = do
  (i, next) ← pick (λ h. h.active) current_load r.hosts r.next_host_idx
  some (i, record r { next_host_idx = next })

-- The cluster with the round-robin counter of one replica moved on.
pub with_host_idx : ℕ → ℕ → Cluster → Cluster
with_host_idx i next c = record c {
  replicas = modify i (λ r. record r { next_host_idx = next }) c.replicas;
}

unfoldable pub get_host : Cluster → Option (HostRef × Cluster)
unfolding get_replica replica_get_host with_host_idx
get_host c = do
  (i, c') ← get_replica c
  r ← get_elem? c'.replicas i
  (j, r') ← replica_get_host r
  some (record { replica = i; host = j }, with_host_idx i r'.next_host_idx c')

-- `hash` of utils.go, 32-bit FNV-1a, is passed in.
module _ (hash : Text → ℕ) where
  get_replica_sticky : Text → Cluster → Option (ℕ × Cluster)
  unfolding pick_sticky
  get_replica_sticky session c = do
    (i, next) ← pick_sticky replica_is_active c.replicas (hash session) c.next_replica_idx
    some (i, record c { next_replica_idx = next })

  pub replica_get_host_sticky : Text → Replica → Option (ℕ × Replica)
  unfolding pick_sticky
  replica_get_host_sticky session r = do
    (i, next) ← pick_sticky (λ h. h.active) r.hosts (hash session) r.next_host_idx
    some (i, record r { next_host_idx = next })

  pub get_host_sticky : Text → Cluster → Option (HostRef × Cluster)
  unfolding get_replica_sticky replica_get_host_sticky with_host_idx
  get_host_sticky session c = do
    (i, c') ← get_replica_sticky session c
    r ← get_elem? c'.replicas i
    (j, r') ← replica_get_host_sticky session r
    some (record { replica = i; host = j }, with_host_idx i r'.next_host_idx c')
