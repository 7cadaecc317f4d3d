-- ===== src/Scope/Nodes.antt =====
-- One node of a cluster is changed, and the others stay (the pointers `*topology.Node` of scope.go).
use chproxy.Base.{
  Bool, Option, Option-cases, arith, get_elem?, get_elem?-modify, if◌then◌else◌, inl, inr,
  map_option, modify, none, some, u32, ℕ, ◌&&◌, ◌==◌, ◌≡◌,
}
use chproxy.Topology.{Node}
use chproxy.Scope.Types.{Replica, Cluster, HostRef, node_at, update_node}

abbrev pub same_ref : HostRef → HostRef → Bool
same_ref h k = h.replica == k.replica && h.host == k.host

pub node_at-update_node :
    (h k : HostRef) (f : Node → Node) (c : Cluster)
    → node_at (update_node h f c) k
      ≡ (if same_ref h k then map_option f (node_at c k) else node_at c k)
unfolding node_at update_node
node_at-update_node h k f c =
    let g = λ (r : Replica). record r { hosts = modify h.host f r.hosts } in
    elim (Option-cases (get_elem? c.replicas k.replica)) [
      | inl e ↦ rw (get_elem?-modify h.replica k.replica g c.replicas, e) (ground arith)
      | inr (r, e) ↦
          rw (get_elem?-modify h.replica k.replica g c.replicas, e)
            (ground (arith, get_elem?-modify h.host k.host f r.hosts))
    ]

-- The open connections of a node, as the uint32 that they are.
abbrev pub count_of : Option Node → Option ℕ
count_of none = none
count_of (some n) = some (u32 n.connections.value)

abbrev pub connections_at : Cluster → HostRef → Option ℕ
connections_at c h = count_of (node_at c h)

-- The same open connections on every node.
abbrev pub SameConnections : Cluster → Cluster → Type 0
SameConnections c d = (h : HostRef) → connections_at d h ≡ connections_at c h
