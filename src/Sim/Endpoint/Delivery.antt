-- ===== src/Sim/Endpoint/Delivery.antt =====
-- Sending and receiving, and endpoints under arbitrary deliveries.
use atarix.Prelude.{
  ℕ, ◌+◌, ◌^◌, ◌<◌, ◌≡◌, ◌≢◌, ◌⊎◌, refl, ap, ◌∙◌, sym, Bool, true, false, Option, some, List, arith,
  if◌then◌else◌,
}
use atarix.Mailbox.{
  MailboxStatus, ok, null, MailboxHeader, SequenceWindow, missing_payload, build_header,
  validate_header, sequence_accept,
}
use atarix.Mailbox.Integrity.{validate-build}
use atarix.Mailbox.Window.{open_window}
use atarix.Sim.Node.{Store, record_tx, record_rx}
use atarix.Sim.Endpoint.{SimPacket, header_or, sent, mailbox_send, accepted_packet, mailbox_receive}

sent_ok :
    (nodes after : Store) (source : ℕ) (old packet : SimPacket) (payload : Option (List ℕ)) (n : ℕ)
    (result : MailboxStatus × Option MailboxHeader)
    → sent nodes source old payload n result ≡ (ok, after, some packet)
    → (header : Option MailboxHeader) × (result ≡ (ok, header))
      × (after ≡ record_tx nodes (some source))
      × (packet
          ≡ record { header = header_or header old.header; payload = payload; payload_length = n })
unfolding sent
sent_ok nodes after source old packet payload n (ok, header) h = (header, refl, cc, cc)
sent_ok nodes after source old packet payload n (status, header) h = cc

build_writes :
    (old : MailboxHeader) (type sequence : ℕ) (payload : Option (List ℕ)) (n : ℕ)
    (header : Option MailboxHeader)
    → build_header (some old) type sequence payload n ≡ (ok, header)
    → (header ≡ some (header_or header old)) × ((header_or header old).sequence ≡ sequence)
unfolding build_header
build_writes old type sequence payload n header h = ground arith

-- What a successful send writes.
record Sent (nodes after : Store) (source : ℕ) (packet : SimPacket) (type sequence : ℕ)
    (payload : Option (List ℕ)) (n : ℕ) (old : MailboxHeader) : Type 0 where
  built : build_header (some old) type sequence payload n ≡ (ok, some packet.header)
  carried : packet.payload ≡ payload
  measured : packet.payload_length ≡ n
  counted : after ≡ record_tx nodes (some source)
  number : packet.header.sequence ≡ sequence

send_result :
    (nodes after : Store) (source : ℕ) (old packet : SimPacket) (type sequence : ℕ)
    (payload : Option (List ℕ)) (n : ℕ)
    → mailbox_send nodes (some source) (some old) type sequence payload n ≡ (ok, after, some packet)
    → sent nodes source old payload n (build_header (some old.header) type sequence payload n)
      ≡ (ok, after, some packet)
unfolding mailbox_send
send_result nodes after source old packet type sequence payload n h =
    passes (missing_payload payload n) h
  where
    passes :
        {r : MailboxStatus × Store × Option SimPacket} (missing : Bool)
        → (if missing then (null, nodes, some old) else r) ≡ (ok, after, some packet)
        → r ≡ (ok, after, some packet)
    passes true e = cc
    passes false e = e

send-Sent :
    (nodes after : Store) (source : ℕ) (old packet : SimPacket) (type sequence : ℕ)
    (payload : Option (List ℕ)) (n : ℕ)
    → mailbox_send nodes (some source) (some old) type sequence payload n ≡ (ok, after, some packet)
    → Sent nodes after source packet type sequence payload n old.header
send-Sent nodes after source old packet type sequence payload n h =
    let (header, result, counted, written) =
      sent_ok nodes after source old packet payload n
        (build_header (some old.header) type sequence payload n)
        (send_result nodes after source old packet type sequence payload n h) in
    let (is_some, number) = build_writes old.header type sequence payload n header result in
    let e : packet.header ≡ header_or header old.header =
      ap (λ (q : SimPacket). q.header) written in
    record {
      built = result ∙ ap (λ (o : Option MailboxHeader). (ok, o)) (is_some ∙ ap some (sym e));
      carried = ap (λ (q : SimPacket). q.payload) written;
      measured = ap (λ (q : SimPacket). q.payload_length) written;
      counted = counted;
      number = ap (λ (b : MailboxHeader). b.sequence) e ∙ number;
    }

-- What a packet with a valid header does to an endpoint with a node.
receive_valid :
    (nodes : Store) (p : ℕ) (w : SequenceWindow) (packet : SimPacket)
    → validate_header (some packet.header) packet.payload packet.payload_length ≡ ok
    → mailbox_receive nodes (some (record { node = some p; rx_window = w })) (some packet)
      ≡ accepted_packet nodes p
          (record { node = some p; rx_window = w })
          (sequence_accept (some w) packet.header.sequence)
unfolding mailbox_receive
receive_valid nodes p w packet valid = rw valid

-- The window accepts the number next: any for a fresh window, the successor for one in use.
abbrev pub Expects : SequenceWindow → ℕ → Type 0
Expects w sequence =
    (w.initialized ≡ false)
    ⊎ (w.initialized ≡ true) × (sequence ≡ w.last_sequence + 1) × (sequence < 2 ^ 32)

pub accept_expected :
    (w : SequenceWindow) (sequence : ℕ)
    → Expects w sequence
    → sequence_accept (some w) sequence
      ≡ (ok, some (record { last_sequence = sequence; initialized = true }))
unfolding sequence_accept
accept_expected w sequence h = ground arith

pub accept_unexpected :
    (last number : ℕ)
    → number < 2 ^ 32
    → last < 2 ^ 32
    → number ≢ last + 1
    → (status : MailboxStatus) × (status ≢ ok)
      × (sequence_accept (some (open_window last)) number ≡ (status, some (open_window last)))
accept_unexpected last number fits room ne = (
  (sequence_accept (some (open_window last)) number).0,
  unfold sequence_accept in ground arith,
  unfold sequence_accept in ground arith,
)

-- What a sent packet does at an endpoint that expects its number: it is received, the endpoint
-- moves on to that number, and of all nodes only the two counters change, also where the source
-- and the destination are one node.
pub receive-send :
    (nodes between : Store) (source p : ℕ) (old packet : SimPacket) (type sequence : ℕ)
    (payload : Option (List ℕ)) (n : ℕ) (w : SequenceWindow)
    → mailbox_send nodes (some source) (some old) type sequence payload n
      ≡ (ok, between, some packet)
    → Expects w sequence
    → mailbox_receive between (some (record { node = some p; rx_window = w })) (some packet) ≡ (
      ok,
      record_rx (record_tx nodes (some source)) (some p),
      some (record {
        node = some p;
        rx_window = record { last_sequence = sequence; initialized = true };
      }),
    )
receive-send nodes between source p old packet type sequence payload n w h expects =
    let s = send-Sent nodes between source old packet type sequence payload n h in
    let valid : validate_header (some packet.header) packet.payload packet.payload_length ≡ ok =
      rw (s.carried, s.measured)
        (validate-build old.header packet.header type sequence payload n s.built) in
    receive_valid between p w packet valid
    ∙ rw (s.number, accept_expected w sequence expects, s.counted) (unfold accepted_packet in refl)
