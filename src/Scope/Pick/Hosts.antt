-- ===== src/Scope/Pick/Hosts.antt =====
-- `getReplica` and `getHost` of scope.go on a cluster as the configuration leaves it.
use chproxy.Base.{
  Bool, List, Option-cases, arith, get_elem?, get_elem?-lt, inc32, inl, inr, length, length-modify,
  modify_unseen, refl, some, subst, ℕ, ◌<◌, ◌^◌, ◌≡◌, ◌≤◌,
}
use chproxy.Topology.{Node, current_load}
use chproxy.Scope.Types.{Replica, Cluster, HostRef, node_at}
use chproxy.Scope.Pick.{
  replica_is_active, replica_load, get_replica, replica_get_host, get_host, with_host_idx, pick,
}
use chproxy.Scope.Pick.Least.{IsLeast, pick-IsLeast}

-- Neither empty nor as long as half the range of uint32.
abbrev pub IsSized {ℓ} : {A : Type ℓ} → List A → Type 0
IsSized xs = (0 < length xs) × (length xs ≤ 2 ^ 31)

-- A cluster with at least one replica, each with at least one host.
pub record IsBuilt (c : Cluster) : Type 0 where
  pub replicas_sized : IsSized c.replicas
  pub hosts_sized : (i : ℕ) (r : Replica) → get_elem? c.replicas i ≡ some r → IsSized r.hosts

abbrev host_is_active : Node → Bool
host_is_active h = h.active

-- The host that was chosen: in a least loaded replica, a least loaded host.
abbrev pub IsBest : Cluster → HostRef → Type 0
IsBest c h =
    IsLeast replica_is_active replica_load c.replicas h.replica
    × ((r : Replica)
        → get_elem? c.replicas h.replica ≡ some r
        → IsLeast host_is_active current_load r.hosts h.host)

-- The same cluster, up to the round-robin counters.
pub record SameNodes (c d : Cluster) : Type 0 where
  same_names : d.name ≡ c.name
  same_length : length d.replicas ≡ length c.replicas
  pub same_nodes :
      (i j : ℕ)
      → node_at d (record { replica = i; host = j }) ≡ node_at c (record { replica = i; host = j })

get_replica-IsLeast :
    (c : Cluster)
    → IsBuilt c
    → (i : ℕ) × (get_replica c ≡ some (i, record c { next_replica_idx = inc32 c.next_replica_idx }))
      × IsLeast replica_is_active replica_load c.replicas i
unfolding get_replica
get_replica-IsLeast c b =
    let (i, e, l) =
      pick-IsLeast replica_is_active replica_load c.replicas b.replicas_sized.1 c.next_replica_idx
        b.replicas_sized.0 in
    (i, rw (e, get_replica), l)

replica_get_host-IsLeast :
    (r : Replica)
    → IsSized r.hosts
    → (j : ℕ) × (replica_get_host r ≡ some (j, record r { next_host_idx = inc32 r.next_host_idx }))
      × IsLeast host_is_active current_load r.hosts j
unfolding replica_get_host
replica_get_host-IsLeast r b =
    let (j, e, l) = pick-IsLeast host_is_active current_load r.hosts b.1 r.next_host_idx b.0 in
    (j, rw (e, replica_get_host), l)

pub with_host_idx-SameNodes :
    (i next k : ℕ) (c : Cluster)
    → SameNodes c (with_host_idx i next (record c { next_replica_idx = k }))
unfolding with_host_idx node_at
with_host_idx-SameNodes i next k c = record {
  same_names = refl;
  same_length = length-modify i _ c.replicas;
  same_nodes = λ a b.
      modify_unseen (λ r. record r { next_host_idx = next }) (λ r. get_elem? r.hosts b) (λ r. refl)
        i a c.replicas;
}

-- On a cluster with at least one replica, each with at least one and at most 2^31 hosts, getHost
-- always returns a host that exists. Its replica has the least load of the active replicas and it
-- has the least load of the active hosts of that replica, as long as there is an active one below
-- the greatest uint32 load; the nodes themselves stay as they were.
pub get_host-IsBest :
    (c : Cluster)
    → IsBuilt c
    → (h : HostRef) × (d : Cluster) × (get_host c ≡ some (h, d)) × IsBest c h × SameNodes c d
unfolding get_host
get_host-IsBest c b =
    let (i, ei, li) = get_replica-IsLeast c b in
    let (r, er) = get_elem?-lt c.replicas i li.0 in
    let (j, ej, lj) = replica_get_host-IsLeast r (b.hosts_sized i r er) in
    (
      record { replica = i; host = j },
      with_host_idx i (inc32 r.next_host_idx)
          (record c { next_replica_idx = inc32 c.next_replica_idx }),
      rw (ei, er, ej, get_host),
      (
        li,
        λ r' e.
            let same : r ≡ r' = ground arith in
            subst (λ q. IsLeast host_is_active current_load q.hosts j) same lj,
      ),
      with_host_idx-SameNodes i (inc32 r.next_host_idx) (inc32 c.next_replica_idx) c,
    )

-- Choosing a host changes no node.
pub get_host-SameNodes :
    (c : Cluster) {h : HostRef} {d : Cluster} → get_host c ≡ some (h, d) → SameNodes c d
unfolding get_host get_replica replica_get_host
get_host-SameNodes c {h} {d} e =
    elim (Option-cases (pick replica_is_active replica_load c.replicas c.next_replica_idx)) [
      | inl none_active ↦ cc
      | inr ((i, next), ei) ↦ elim (Option-cases (get_elem? c.replicas i)) [
        | inl missing ↦ cc
        | inr (r, er) ↦
            elim (Option-cases
              (pick (λ (n : Node). n.active) current_load r.hosts r.next_host_idx)) [
                | inl no_host ↦ cc
                | inr ((j, next_j), ej) ↦
                    let same : with_host_idx i next_j (record c { next_replica_idx = next }) ≡ d =
                      ground arith in
                    subst (λ x. SameNodes c x) same (with_host_idx-SameNodes i next_j next c)
              ]
      ]
    ]
