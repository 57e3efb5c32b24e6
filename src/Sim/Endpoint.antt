-- ===== src/Sim/Endpoint.antt =====
-- include/atarix/sim_mailbox.h and src/sim/sim_mailbox.c: packets, and the endpoint that receives them.
pub mod Delivery
pub mod Runs
pub mod Network
pub mod Channel
use atarix.Prelude.{ℕ, Bool, false, Option, none, some, List}
use atarix.Mailbox.{
  MailboxStatus, ok, null, MailboxHeader, SequenceWindow, missing_payload, build_header,
  validate_header, sequence_accept,
}
use atarix.Prelude.{if◌then◌else◌}
use atarix.Sim.Node.{Store, record_tx, record_rx}

pub record SimPacket : Type 0 where
  pub header : MailboxHeader
  pub payload : Option (List ℕ)
  pub payload_length : ℕ

pub record Endpoint : Type 0 where
  pub node : Option ℕ
  pub rx_window : SequenceWindow

abbrev pub fresh_window : SequenceWindow
fresh_window = record { last_sequence = 0; initialized = false }

unfoldable pub endpoint_init : Option Endpoint → Option ℕ → Option Endpoint
endpoint_init none p = none
endpoint_init (some old) p = some (record { node = p; rx_window = fresh_window })

abbrev pub header_or : Option MailboxHeader → MailboxHeader → MailboxHeader
header_or none old = old
header_or (some h) old = h

-- After `atarix_mailbox_build_header`: an error leaves the packet's payload and the counter alone.
unfoldable pub sent :
    Store
    → ℕ
    → SimPacket
    → Option (List ℕ)
    → ℕ
    → MailboxStatus × Option MailboxHeader
    → MailboxStatus × Store × Option SimPacket
sent nodes source packet payload payload_length (ok, header) = (
  ok,
  record_tx nodes (some source),
  some (record {
    header = header_or header packet.header;
    payload = payload;
    payload_length = payload_length;
  }),
)
sent nodes source packet payload payload_length (status, header) =
    (status, nodes, some (record packet { header = header_or header packet.header }))

-- The status, and the nodes and the packet object after the call.
unfoldable pub mailbox_send :
    Store
    → Option ℕ
    → Option SimPacket
    → ℕ
    → ℕ
    → Option (List ℕ)
    → ℕ
    → MailboxStatus × Store × Option SimPacket
mailbox_send nodes none packet type sequence payload payload_length = (null, nodes, packet)
mailbox_send nodes (some source) none type sequence payload payload_length = (null, nodes, none)
mailbox_send nodes (some source) (some packet) type sequence payload payload_length =
    if missing_payload payload payload_length
    then (null, nodes, some packet)
    else sent nodes source packet payload payload_length
        (build_header (some packet.header) type sequence payload payload_length)

abbrev pub window_or : Option SequenceWindow → SequenceWindow → SequenceWindow
window_or none old = old
window_or (some w) old = w

-- After `atarix_mailbox_sequence_accept`, which may have written the window.
unfoldable pub accepted_packet :
    Store
    → ℕ
    → Endpoint
    → MailboxStatus × Option SequenceWindow
    → MailboxStatus × Store × Option Endpoint
accepted_packet nodes p destination (ok, window) = (
  ok,
  record_rx nodes (some p),
  some (record destination { rx_window = window_or window destination.rx_window }),
)
accepted_packet nodes p destination (status, window) = (
  status,
  nodes,
  some (record destination { rx_window = window_or window destination.rx_window }),
)

-- After `atarix_mailbox_validate_header`.
unfoldable pub checked_packet :
    Store → ℕ → Endpoint → SimPacket → MailboxStatus → MailboxStatus × Store × Option Endpoint
checked_packet nodes p destination packet ok =
    accepted_packet nodes p destination
      (sequence_accept (some destination.rx_window) packet.header.sequence)
checked_packet nodes p destination packet status = (status, nodes, some destination)

abbrev receive_at :
    Store → Option ℕ → Endpoint → SimPacket → MailboxStatus × Store × Option Endpoint
receive_at nodes none destination packet = (null, nodes, some destination)
receive_at nodes (some p) destination packet =
    checked_packet nodes p destination packet
      (validate_header (some packet.header) packet.payload packet.payload_length)

-- The status, and the nodes and the endpoint object after the call.
unfoldable pub mailbox_receive :
    Store → Option Endpoint → Option SimPacket → MailboxStatus × Store × Option Endpoint
unfolding checked_packet
mailbox_receive nodes none packet = (null, nodes, none)
mailbox_receive nodes (some destination) none = (null, nodes, some destination)
mailbox_receive nodes (some destination) (some packet) =
    receive_at nodes destination.node destination packet
