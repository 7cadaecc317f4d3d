-- ===== src/Topology/Nodes.antt =====
-- The node, its options and its methods (internal/topology/node.go), the counter in place.
use chproxy.Base.{
  Bool, List, Text, [], dec32, false, if◌then◌else◌, inc32, leb, true, u32, ℕ, ◌*◌, ◌+◌, ◌-◌, ◌^◌,
  ◌∷◌,
}

-- `counter.Counter`.
pub record Counter : Type 0 where
  pub value : ℕ  -- uint32

unfoldable pub counter_store : ℕ → Counter → Counter
counter_store n c = record c { value = n }

counter_load : Counter → ℕ
counter_load c = c.value

counter_dec : Counter → Counter
counter_dec c = record c { value = dec32 c.value }

counter_inc : Counter → Counter
counter_inc c = record c { value = inc32 c.value }

-- The part of `url.URL` that a node reads.
pub record Address : Type 0 where
  pub scheme : Text
  pub host : Text

abbrev pub default_penalty_size : ℕ
default_penalty_size = 5

abbrev pub default_max_size : ℕ
default_max_size = 300

abbrev pub default_penalty_duration : ℕ
default_penalty_duration = 10 * 10 ^ 9

pub record NodeOpts : Type 0 where
  pub default_active : Bool
  pub penalty_size : ℕ  -- uint32
  pub penalty_max_size : ℕ  -- uint32
  pub penalty_duration : ℕ

default_node_opts : NodeOpts
default_node_opts = record {
  default_active = false;
  penalty_size = default_penalty_size;
  penalty_max_size = default_max_size;
  penalty_duration = default_penalty_duration;
}

-- `NodeOption`: the one implementation is `defaultActive`.
pub data NodeOption : Type 0 where
  with_default_active_state : Bool → NodeOption

apply_option : NodeOption → NodeOpts → NodeOpts
apply_option (with_default_active_state b) opts = record opts { default_active = b }

apply_options : List NodeOption → NodeOpts → NodeOpts
unfolding apply_option
apply_options [] opts = opts
apply_options (o ∷ os) opts = apply_options os (apply_option o opts)

-- The heartbeat that the node calls is a parameter of `heartbeat` below.
pub record Node : Type 0 where
  pub addr : Address
  pub active : Bool
  pub connections : Counter
  pub penalty : ℕ  -- uint32
  pub cluster_name : Text
  pub replica_name : Text
  pub opts : NodeOpts

unfoldable pub set_is_active : Bool → Node → Node
set_is_active b n = record n { active = b }

unfoldable pub new_node : Address → Text → Text → List NodeOption → Node
unfolding default_node_opts apply_options set_is_active
new_node addr cluster_name replica_name options =
    let opts = apply_options options default_node_opts in
    let n : Node = record {
      addr = addr;
      active = false;
      connections = record { value = 0 };
      penalty = 0;
      cluster_name = cluster_name;
      replica_name = replica_name;
      opts = opts;
    } in
    if opts.default_active then set_is_active true n else n

-- `heartbeat`: the node is active exactly when the check returned no error.
unfoldable pub heartbeat : Bool → Node → Node
heartbeat healthy n = if healthy then record n { active = true } else record n { active = false }

-- The two atomic steps of `Penalize`: the load with its test, and the addition.
abbrev pub is_at_max_penalty : Node → Bool
is_at_max_penalty n = leb n.opts.penalty_max_size n.penalty

abbrev pub add_penalty : Node → Node
add_penalty n = record n { penalty = u32 (n.penalty + n.opts.penalty_size) }

-- `Penalize` that no other step comes between: the new node, and whether the function that takes the
-- penalty back was scheduled.
unfoldable pub penalize : Node → Node × Bool
penalize n = if is_at_max_penalty n then (n, false) else (add_penalty n, true)

-- The function that `time.AfterFunc` runs: `Add(^uint32(penaltySize - 1))`.
unfoldable pub end_penalty : Node → Node
end_penalty n = record n {
  penalty = u32 (n.penalty + (2 ^ 32 - 1 - u32 (n.opts.penalty_size + 2 ^ 32 - 1)));
}

unfoldable pub current_load : Node → ℕ
unfolding counter_load
current_load n = u32 (counter_load n.connections + n.penalty)

unfoldable pub increment_connections : Node → Node
unfolding counter_inc
increment_connections n = record n { connections = counter_inc n.connections }

unfoldable pub decrement_connections : Node → Node
unfolding counter_dec
decrement_connections n = record n { connections = counter_dec n.connections }
