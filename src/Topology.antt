-- ===== src/Topology.antt =====
-- internal/topology/node.go and internal/counter/counter.go: a ClickHouse node with its health,
-- its open connections and its penalty. The fields are atomics, so a method is one step on the
-- record for each field that it loads or changes: `Penalize` is two, which Load takes apart. Metrics
-- are left out. A time is a number of nanoseconds.
mod Nodes
pub mod Load
use chproxy.Base.{◌*◌}
unfoldable pub use Nodes.*
