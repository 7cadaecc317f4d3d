-- ===== src/Tests/Pick.antt =====
-- The choice of a host at a concrete cluster.
use chproxy.Base.{arith, get_elem?, refl, some, subst, suc, zero, ℕ, ◌>>=◌, ◌≡◌}
use chproxy.Topology.{current_load}
use chproxy.Scope.Types.{Replica, Cluster, HostRef}
use chproxy.Scope.Pick.{replica_is_active, replica_load, get_host}
use chproxy.Scope.Pick.Hosts.{IsSized, IsBuilt, IsBest, SameNodes, get_host-IsBest}
use chproxy.Tests.Fixtures.{pair_replica, lone_replica, cluster, host_one}

-- The second replica has the lower load, and its second host.
get_host_runs : (get_host cluster >>= λ (r : HostRef × Cluster). some r.0) ≡ some host_one
unfolding get_host current_load replica_is_active replica_load
get_host_runs = refl

cluster-IsBuilt : IsBuilt cluster
cluster-IsBuilt = record { replicas_sized = (omega arith, omega arith); hosts_sized = sized }
  where
    sized : (i : ℕ) (r : Replica) → get_elem? cluster.replicas i ≡ some r → IsSized r.hosts
    sized zero r e =
        let same : lone_replica ≡ r = ground arith in
        subst (λ q. IsSized q.hosts) same (omega arith, omega arith)
    sized (suc zero) r e =
        let same : pair_replica ≡ r = ground arith in
        subst (λ q. IsSized q.hosts) same (omega arith, omega arith)
    sized (suc (suc i)) r e = cc

get_host-IsBest_example :
    (h : HostRef) × (d : Cluster) × (get_host cluster ≡ some (h, d))
    × IsBest cluster h
    × SameNodes cluster d
get_host-IsBest_example = get_host-IsBest cluster cluster-IsBuilt
