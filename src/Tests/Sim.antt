-- ===== src/Tests/Sim.antt =====
-- Two nodes of a fabric, a packet from one to the other, and its second delivery.
use atarix.Prelude.{
  ℕ, zero, suc, List, ◌++◌, ◌+◌, ◌≡◌, ◌≢◌, ◌↔◌, ◌⊎◌, ◌<◌, refl, inr, true, none, some, [], ◌∷◌,
  replicate, set, length, ◌==◌, arith, if◌then◌else◌,
}
use atarix.Prelude.Word.{u32}
use atarix.Mailbox
use atarix.Mailbox.{MailboxHeader, mailbox_magic, mailbox_crc32, message_type_known, build_header}
use atarix.Mailbox.Window.{CountsFrom}
use atarix.Sim.Endpoint.Channel.{delivered-prefix, delivered-all}
use atarix.Sim.Endpoint.Network.{
  delivered, IsStream, packet_of, intact, corrupted, AllArrive, Within, done, here, later,
}
use atarix.Sim.Node.{Store, record_tx, record_rx}
use atarix.Sim.Fabric.{
  max_nodes, ok, duplicate_node, full, SimFabric, fabric_init, holds_id, fabric_attach,
  fabric_lookup,
}
use atarix.Sim.Fabric.Laws.{
  IsFabric, Reach, fresh, attach, fabric_attach_statuses, lookup-attach, Reach-IsFabric,
}
use atarix.Sim.Endpoint.{SimPacket, mailbox_send, mailbox_receive, sent}
use atarix.Sim.Endpoint.Delivery.{receive-send}
use atarix.Sim.Endpoint.Runs.{received, nodes_after, at_node, received-CountsFrom, received_counts}

abbrev nodes : Store
nodes x = record { node_id = x + 100; name = "node"; tx_count = 0; rx_count = 0 }

abbrev empty : SimFabric
empty = record { slots = replicate max_nodes (record { node_id = 0; node = none }); node_count = 0 }

abbrev with_node : SimFabric
with_node = record {
  slots =
      set (replicate max_nodes (record { node_id = 0; node = none })) 0
        (record { node_id = 103; node = some 3 });
  node_count = 1;
}

reaches_empty : Reach empty
unfolding fabric_init
reaches_empty = fresh empty refl

reaches_one : Reach with_node
unfolding fabric_attach holds_id
reaches_one = attach nodes 3 ok reaches_empty refl

Reach-IsFabric_example : IsFabric with_node
Reach-IsFabric_example = Reach-IsFabric reaches_one

fabric_attach_statuses_example :
    let (status, after) = fabric_attach nodes (some with_node) (some 4) in
    let present = fabric_lookup (some with_node) 104 in
    ((status ≡ duplicate_node) ↔ (present ≢ none))
    × ((status ≡ full) ↔ (present ≡ none) × (with_node.node_count ≡ max_nodes))
    × ((status ≡ ok) ↔ (present ≡ none) × (with_node.node_count < max_nodes))
    × ((status ≡ ok) ⊎ (after ≡ some with_node))
fabric_attach_statuses_example =
    fabric_attach_statuses nodes with_node 4 (Reach-IsFabric reaches_one)

lookup-attach_example :
    fabric_lookup (some with_node) 103
    ≡ (if 103 == 103 then some 3 else fabric_lookup (some empty) 103)
unfolding fabric_attach holds_id
lookup-attach_example =
    lookup-attach nodes empty with_node 3 103 (Reach-IsFabric reaches_empty) refl

abbrev blank : SimPacket
blank = record {
  header = record { magic = 0; type = 0; length = 0; sequence = 0; crc32 = 0 };
  payload = none;
  payload_length = 0;
}

abbrev packet : SimPacket
packet = record {
  header = record {
    magic = mailbox_magic;
    type = 1;
    length = 2;
    sequence = 5;
    crc32 = mailbox_crc32 (some (10 ∷ 20 ∷ [])) 2;
  };
  payload = some (10 ∷ 20 ∷ []);
  payload_length = 2;
}

receive-send_example :
    mailbox_receive
      (record_tx nodes (some 3))
      (some
        (record { node = some 4; rx_window = record { last_sequence = 4; initialized = true } }))
      (some packet)
    ≡ (
      Mailbox.ok,
      record_rx (record_tx nodes (some 3)) (some 4),
      some (record { node = some 4; rx_window = record { last_sequence = 5; initialized = true } }),
    )
unfolding mailbox_send sent build_header message_type_known
receive-send_example =
    receive-send nodes (record_tx nodes (some 3)) 3 4 blank packet 1 5 (some (10 ∷ 20 ∷ [])) 2
      (record { last_sequence = 4; initialized = true }) refl (inr (refl, refl, omega arith))

received-CountsFrom_example : CountsFrom 5 (
    received nodes
      (record { node = some 4; rx_window = record { last_sequence = 4; initialized = true } })
      (packet ∷ packet ∷ blank ∷ []))
received-CountsFrom_example =
    received-CountsFrom nodes 4 4 (packet ∷ packet ∷ blank ∷ []) (omega arith) (ground arith)

received_counts_example :
    ((nodes_after nodes (at_node 4 4) (packet ∷ packet ∷ []) 4).rx_count ≡ (
      if 4 == 4 then u32 (0 + length (received nodes (at_node 4 4) (packet ∷ packet ∷ []))) else 0))
    × ((nodes_after nodes (at_node 4 4) (packet ∷ packet ∷ []) 4).tx_count ≡ 0)
received_counts_example =
    received_counts nodes 4 4 (packet ∷ packet ∷ []) 4 (omega arith) (ground arith) (omega arith)

-- Two packets of a stream; the second one also arrives with a byte changed, and the first one twice.
abbrev header_for : ℕ → List ℕ → MailboxHeader
header_for sequence payload = record {
  magic = mailbox_magic;
  type = 1;
  length = length payload;
  sequence = sequence;
  crc32 = mailbox_crc32 (some payload) (length payload);
}

abbrev stream_packet : ℕ → List ℕ → SimPacket
stream_packet sequence payload = packet_of (header_for sequence payload) payload

abbrev two_packets : List SimPacket
two_packets = stream_packet 6 (1 ∷ 2 ∷ []) ∷ stream_packet 7 (3 ∷ 4 ∷ []) ∷ []

abbrev arriving : List SimPacket
arriving =
    packet_of (header_for 7 (3 ∷ 4 ∷ [])) (3 ∷ 5 ∷ [])
    ∷ stream_packet 6 (1 ∷ 2 ∷ [])
    ∷ stream_packet 6 (1 ∷ 2 ∷ [])
    ∷ stream_packet 7 (3 ∷ 4 ∷ [])
    ∷ []

two_packets-IsStream : IsStream 6 two_packets
unfolding build_header message_type_known
two_packets-IsStream zero q h =
    let same : stream_packet 6 (1 ∷ 2 ∷ []) ≡ q = cc in rw (← same) (refl, (header_for 0 [], refl))
two_packets-IsStream (suc zero) q h =
    let same : stream_packet 7 (3 ∷ 4 ∷ []) ≡ q = cc in rw (← same) (refl, (header_for 0 [], refl))
two_packets-IsStream (suc (suc i)) q h = absurd cc

two_packets_arrive : AllArrive two_packets arriving
two_packets_arrive = (
  corrupted 1 (header_for 7 (3 ∷ 4 ∷ [])) (3 ∷ []) 4 5 [] refl (omega arith, tt) (omega arith)
      (omega arith) tt (omega arith),
  (
    intact 0 (stream_packet 6 (1 ∷ 2 ∷ [])) refl,
    (
      intact 0 (stream_packet 6 (1 ∷ 2 ∷ [])) refl,
      (intact 1 (stream_packet 7 (3 ∷ 4 ∷ [])) refl, tt),
    ),
  ),
)

delivered-prefix_example :
    (rest : List SimPacket) × (delivered nodes (at_node 3 5) arriving ++ rest ≡ two_packets)
delivered-prefix_example =
    delivered-prefix two_packets arriving 5 nodes 3 two_packets-IsStream (omega arith)
      two_packets_arrive

two_packets-Within : Within two_packets arriving
two_packets-Within = later (packet_of (header_for 7 (3 ∷ 4 ∷ [])) (3 ∷ 5 ∷ [])) (
    here (stream_packet 6 (1 ∷ 2 ∷ []))
      (later (stream_packet 6 (1 ∷ 2 ∷ [])) (here (stream_packet 7 (3 ∷ 4 ∷ [])) done)))

delivered-all_example : delivered nodes (at_node 3 5) arriving ≡ two_packets
delivered-all_example =
    delivered-all two_packets arriving 5 nodes 3 two_packets-IsStream (omega arith)
      two_packets_arrive two_packets-Within
