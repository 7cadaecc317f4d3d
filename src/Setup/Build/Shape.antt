-- ===== src/Setup/Build/Shape.antt =====
-- The clusters that scope.go builds of a configuration that config/config.go accepts.
use chproxy.Base.{
  All, List, Option, Option-cases, Text, [], any, ap, arith, bytes, false, get_elem?, inl, inr,
  is_empty, length, none, refl, some, subst, suc, zero, ℕ, ◌&&◌, ◌++◌, ◌<◌, ◌^◌, ◌∷◌, ◌≡◌, ◌≢◌, ◌≤◌,
}
use chproxy.Config.Validate.{
  first_error, validate_cluster, validate_minimum_requirements, validate_replica,
}
use chproxy.Scope.Pick.Hosts.{IsSized, IsBuilt, IsBest, get_host-IsBest}
use chproxy.Scope.Types.{Replica, Cluster, HostRef}
use chproxy.Scope.Pick.{get_host}
use chproxy.Setup.Build.{
  new_nodes, new_replica, each_replica, new_replicas, new_cluster, new_cluster_users, new_heartbeat,
  first_user,
}
use chproxy.Setup.Types.{Result, err, bad_node, ◌>>=◌, ReplicaConfig, ClusterConfig, ok, >>=-split}
use chproxy.Topology.{Address, Node, new_node}

module _ (parse_url : Text → Option Address) where
  new_nodes-length :
      (ns : List Text) (scheme cluster replica : Text) {hs : List Node}
      → new_nodes parse_url ns scheme cluster replica ≡ ok hs
      → length hs ≡ length ns
  unfolding new_nodes
  new_nodes-length [] scheme cluster replica e = ground arith
  new_nodes-length (n ∷ ns) scheme cluster replica {hs} e =
      let more = λ (addr : Address) (hs : List Node). ok (new_node addr cluster replica [] ∷ hs) in
      let built = λ (x : Option Address). elim x as (λ _. Result (List Node)) [
        | none ↦ err (bad_node n)
        | some addr ↦ (new_nodes parse_url ns scheme cluster replica >>= more addr)
      ] in
      elim (Option-cases (parse_url (scheme ++ (bytes "://" ++ n)))) [
        | inl bad ↦ let never = subst (λ x. built x ≡ ok hs) bad e in cc
        | inr (addr, good) ↦
            let (tail, et, eh) =
              >>=-split (new_nodes parse_url ns scheme cluster replica) (more addr)
                (subst (λ x. built x ≡ ok hs) good e) in
            ground (arith, new_nodes-length ns scheme cluster replica et, eh)
      ]

  -- A list of hosts that is as long as a list of nodes.
  new_replica-IsSized :
      (name : Text) (nodes : List Text) (scheme cluster : Text) {r : Replica}
      → IsSized nodes
      → new_replica parse_url name nodes scheme cluster ≡ ok r
      → IsSized r.hosts
  unfolding new_replica
  new_replica-IsSized name nodes scheme cluster sized e =
      let (hosts, eh, er) =
        >>=-split (new_nodes parse_url nodes scheme cluster name)
          (λ hosts. ok (record { name = name; hosts = hosts; next_host_idx = 0 })) e in
      ground (arith, new_nodes-length nodes scheme cluster name eh, er)

  none_of : (i : ℕ) {q : Replica} → get_elem? [] i ≢ some q
  none_of zero = λ e. cc
  none_of (suc i) = λ e. cc

  abbrev HasShape : List ReplicaConfig → List Replica → Type 0
  HasShape rs qs =
      (length qs ≡ length rs) × ((i : ℕ) (q : Replica) → get_elem? qs i ≡ some q → IsSized q.hosts)

  each_replica-IsSized :
      (rs : List ReplicaConfig) (scheme cluster : Text) {qs : List Replica}
      → All (λ (r : ReplicaConfig). IsSized r.nodes) rs
      → each_replica parse_url rs scheme cluster ≡ ok qs
      → HasShape rs qs
  unfolding each_replica
  each_replica-IsSized [] scheme cluster {qs} hs e =
      let same : [] ≡ qs = ground arith in
      subst (λ (qs : List Replica). HasShape [] qs) same (refl, λ i q h. absurd (none_of i h))
  each_replica-IsSized (r ∷ rs) scheme cluster {qs} (h, hs) e =
      let (q, eq, e1) =
        >>=-split (new_replica parse_url r.name r.nodes scheme cluster)
          (λ head. do rest ← each_replica parse_url rs scheme cluster; ok (head ∷ rest)) e in
      let (tail, et, e2) =
        >>=-split (each_replica parse_url rs scheme cluster) (λ rest. ok (q ∷ rest)) e1 in
      let one = new_replica-IsSized r.name r.nodes scheme cluster h eq in
      let (same, others) = each_replica-IsSized rs scheme cluster hs et in
      let whole : q ∷ tail ≡ qs = ground arith in
      subst (λ qs. HasShape (r ∷ rs) qs) whole (ap suc same, at_each q tail one others)
    where
      at_each :
          (q : Replica) (tail : List Replica)
          → IsSized q.hosts
          → ((i : ℕ) (p : Replica) → get_elem? tail i ≡ some p → IsSized p.hosts)
          → (i : ℕ) (p : Replica) → get_elem? (q ∷ tail) i ≡ some p
          → IsSized p.hosts
      at_each q tail one others zero p h = ground arith
      at_each q tail one others (suc i) p h = others i p h

  valid-IsSized :
      (rs : List ReplicaConfig)
      → All (λ (r : ReplicaConfig). validate_replica r ≡ none) rs
      → All (λ (r : ReplicaConfig). length r.nodes ≤ 2 ^ 31) rs
      → All (λ (r : ReplicaConfig). IsSized r.nodes) rs
  unfolding validate_replica first_error
  valid-IsSized [] vs ls = tt
  valid-IsSized (r ∷ rs) (v, vs) (l, ls) =
      ((positive_length r.nodes (ground arith), l), valid-IsSized rs vs ls)
    where
      positive_length : (ns : List Text) → is_empty ns ≡ false → 0 < length ns
      positive_length [] h = cc
      positive_length (n ∷ ns) h = omega arith

  new_replicas-IsBuilt :
      (rs : List ReplicaConfig) (nodes : List Text) (scheme cluster : Text) {qs : List Replica}
      → is_empty nodes && is_empty rs ≡ false
      → All (λ (r : ReplicaConfig). IsSized r.nodes) rs
      → length nodes ≤ 2 ^ 31
      → length rs ≤ 2 ^ 31
      → new_replicas parse_url rs nodes scheme cluster ≡ ok qs
      → IsSized qs × ((i : ℕ) (q : Replica) → get_elem? qs i ≡ some q → IsSized q.hosts)
  unfolding new_replicas
  new_replicas-IsBuilt [] [] scheme cluster any sized few_nodes few_replicas e = cc
  new_replicas-IsBuilt (r ∷ rs) [] scheme cluster any sized few_nodes few_replicas e =
      let (same, hosts) = each_replica-IsSized (r ∷ rs) scheme cluster sized e in
      ((omega arith, omega arith), hosts)
  new_replicas-IsBuilt rs (n ∷ ns) scheme cluster {qs} any sized few_nodes few_replicas e =
      let (q, eq, e1) =
        >>=-split (new_replica parse_url (bytes "default") (n ∷ ns) scheme cluster)
          (λ r. ok (r ∷ [])) e in
      let one =
        new_replica-IsSized (bytes "default") (n ∷ ns) scheme cluster (omega arith, few_nodes) eq in
      let whole : q ∷ [] ≡ qs = ground arith in
      subst
        (λ (qs : List Replica).
          IsSized qs × ((i : ℕ) (q : Replica) → get_elem? qs i ≡ some q → IsSized q.hosts))
        whole ((omega arith, omega arith), only q one)
    where
      only :
          (q : Replica)
          → IsSized q.hosts
          → (i : ℕ) (p : Replica) → get_elem? (q ∷ []) i ≡ some p
          → IsSized p.hosts
      only q one zero p h = ground arith
      only q one (suc i) p h = cc

  validate_cluster-nodes :
      (c : ClusterConfig)
      → validate_cluster c ≡ none
      → is_empty c.nodes && is_empty c.replicas ≡ false
  unfolding validate_cluster validate_minimum_requirements first_error
  validate_cluster-nodes c valid = ground arith

  -- A cluster of a checked configuration, whose lists of replicas and nodes are not longer than
  -- 2^31, is built with at least one replica, and each replica with at least one host: it always has
  -- a host to offer, one of the best, so no request panics for want of a host.
  pub new_cluster-has_host :
      (c : ClusterConfig) {d : Cluster}
      → validate_cluster c ≡ none
      → All (λ (r : ReplicaConfig). validate_replica r ≡ none) c.replicas
      → length c.nodes ≤ 2 ^ 31
      → length c.replicas ≤ 2 ^ 31
      → All (λ (r : ReplicaConfig). length r.nodes ≤ 2 ^ 31) c.replicas
      → new_cluster parse_url c ≡ ok d
      → IsBuilt d × ((h : HostRef) × (d' : Cluster) × (get_host d ≡ some (h, d')) × IsBest d h)
  unfolding new_cluster
  new_cluster-has_host c {d} valid valid_replicas few_nodes few_replicas few e =
      let (users, eu, e1) = >>=-split (new_cluster_users parse_url c.cluster_users []) _ e in
      let (first, ef, e2) = >>=-split (first_user c.cluster_users) _ e1 in
      let (heart_beat, eb, e3) =
        >>=-split (new_heartbeat c.heart_beat first.name first.password) _ e2 in
      let (replicas, er, e4) =
        >>=-split (new_replicas parse_url c.replicas c.nodes c.scheme c.name) _ e3 in
      let (sized, hosts) =
        new_replicas-IsBuilt c.replicas c.nodes c.scheme c.name (validate_cluster-nodes c valid)
          (valid-IsSized c.replicas valid_replicas few) few_nodes few_replicas er in
      let same : replicas ≡ d.replicas = ground arith in
      let built : IsBuilt d = record {
        replicas_sized = subst (λ (rs : List Replica). IsSized rs) same sized;
        hosts_sized =
            subst
              (λ (rs : List Replica).
                (i : ℕ) (q : Replica) → get_elem? rs i ≡ some q → IsSized q.hosts)
              same hosts;
      } in
      let (h, d', got, best, _) = get_host-IsBest d built in (built, (h, d', got, best))
