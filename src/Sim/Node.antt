-- ===== src/Sim/Node.antt =====
-- include/atarix/sim_node.h and src/sim/sim_node.c. A node is an object that others point to: a store
-- gives the node at each address, and NULL is `none`.
use Prim.Native.String.{String}
use atarix.Prelude.{ℕ, ◌+◌, Option, none, some, ◌==◌, if◌then◌else◌}
use atarix.Prelude.Word.{u32}

pub record SimNode : Type 0 where
  pub node_id : ℕ
  pub name : String
  pub tx_count : ℕ
  pub rx_count : ℕ

abbrev pub Store : Type 0
Store = ℕ → SimNode

abbrev pub write_node : Store → ℕ → SimNode → Store
write_node nodes p n q = if q == p then n else nodes q

unfoldable pub node_init : Store → Option ℕ → ℕ → String → Store
node_init nodes none node_id name = nodes
node_init nodes (some p) node_id name =
    write_node nodes p (record { node_id = node_id; name = name; tx_count = 0; rx_count = 0 })

unfoldable pub record_tx : Store → Option ℕ → Store
record_tx nodes none = nodes
record_tx nodes (some p) =
    write_node nodes p (record (nodes p) { tx_count = u32 ((nodes p).tx_count + 1) })

unfoldable pub record_rx : Store → Option ℕ → Store
record_rx nodes none = nodes
record_rx nodes (some p) =
    write_node nodes p (record (nodes p) { rx_count = u32 ((nodes p).rx_count + 1) })
