-- ===== src/Sim/Endpoint/Runs.antt =====
-- Whole runs of deliveries to one endpoint: which packets it receives, and what the nodes count.
use native.Mathlib.Decide.{ℕ_discrete}
use atarix.Prelude.{
  ℕ, ◌+◌, ◌^◌, ◌<◌, ◌≡◌, ◌≢◌, ◌⊎◌, inl, inr, refl, ap, true, Option, none, some, List, [], ◌∷◌,
  length, ◌==◌, arith, if◌then◌else◌,
}
use atarix.Prelude.Word.{u32}
use atarix.Mailbox.{MailboxStatus, ok, SequenceWindow, validate_header, sequence_accept}
use atarix.Mailbox.Window.{accepted_head, open_window, CountsFrom}
use atarix.Sim.Node.{Store, record_rx}
use atarix.Sim.Endpoint.{
  SimPacket, Endpoint, window_or, accepted_packet, checked_packet, mailbox_receive,
}
use atarix.Sim.Endpoint.Delivery.{accept_expected, accept_unexpected}

-- A run of deliveries to one endpoint: the numbers of the packets received, in order, and the nodes.
abbrev pub endpoint_or : Option Endpoint → Endpoint → Endpoint
endpoint_or none old = old
endpoint_or (some e) old = e

abbrev pub received : Store → Endpoint → List SimPacket → List ℕ
received nodes e [] = []
received nodes e (q ∷ qs) =
    let (status, after, e') = mailbox_receive nodes (some e) (some q) in
    accepted_head status q.header.sequence (received after (endpoint_or e' e) qs)

abbrev pub nodes_after : Store → Endpoint → List SimPacket → Store
nodes_after nodes e [] = nodes
nodes_after nodes e (q ∷ qs) =
    let (status, after, e') = mailbox_receive nodes (some e) (some q) in
    nodes_after after (endpoint_or e' e) qs

abbrev pub Numbered : List SimPacket → Type 0
Numbered [] = Unit
Numbered (q ∷ qs) = (q.header.sequence < 2 ^ 32) × Numbered qs

-- An endpoint in use at a node.
abbrev pub at_node : ℕ → ℕ → Endpoint
at_node p last = record {
  node = some p;
  rx_window = record { last_sequence = last; initialized = true };
}

MailboxStatus-ok : (s : MailboxStatus) → (s ≡ ok) ⊎ (s ≢ ok)
MailboxStatus-ok s = ground arith

pub checked_refused :
    (nodes : Store) (p : ℕ) (e : Endpoint) (q : SimPacket) (status : MailboxStatus)
    → status ≢ ok
    → checked_packet nodes p e q status ≡ (status, nodes, some e)
unfolding checked_packet
checked_refused nodes p e q ok ne = absurd (ne refl)
checked_refused nodes p e q _ ne = refl

accepted_refused :
    (nodes : Store) (p : ℕ) (e : Endpoint) (status : MailboxStatus) (w : Option SequenceWindow)
    → status ≢ ok
    → accepted_packet nodes p e (status, w)
      ≡ (status, nodes, some (record e { rx_window = window_or w e.rx_window }))
unfolding accepted_packet
accepted_refused nodes p e ok w ne = absurd (ne refl)
accepted_refused nodes p e _ w ne = refl

accepted_head_refused :
    (status : MailboxStatus) (number : ℕ) (rest : List ℕ)
    → status ≢ ok
    → accepted_head status number rest ≡ rest
accepted_head_refused ok number rest ne = absurd (ne refl)
accepted_head_refused _ number rest ne = refl

-- What one delivery can do to an endpoint in use.
pub data Delivered (nodes : Store) (p last number : ℕ)
    (result : MailboxStatus × Store × Option Endpoint) : Type 0 where
  taken :
      number ≡ last + 1
      → result ≡ (ok, record_rx nodes (some p), some (at_node p number))
      → Delivered nodes p last number result
  refused :
      (status : MailboxStatus)
      → status ≢ ok
      → result ≡ (status, nodes, some (at_node p last))
      → Delivered nodes p last number result

accept_step :
    (nodes : Store) (p last number : ℕ)
    → number < 2 ^ 32
    → last < 2 ^ 32
    → Delivered nodes p last number (
        accepted_packet nodes p (at_node p last) (sequence_accept (some (open_window last)) number))
accept_step nodes p last number fits room = elim (ℕ_discrete number (last + 1)) [
  | yes e ↦
      let accepts : sequence_accept (some (open_window last)) number
          ≡ (ok, some (open_window number)) =
        accept_expected (open_window last) number (inr (refl, e, fits)) in
      taken e (rw accepts (unfold accepted_packet in refl))
  | no ne ↦
      let (status, bad, refuses) = accept_unexpected last number fits room ne in
      refused status bad (
        rw refuses (accepted_refused nodes p (at_node p last) status (some (open_window last)) bad))
]

pub receive_step :
    (nodes : Store) (p last : ℕ) (q : SimPacket)
    → q.header.sequence < 2 ^ 32
    → last < 2 ^ 32
    → Delivered nodes p last q.header.sequence
        (mailbox_receive nodes (some (at_node p last)) (some q))
unfolding mailbox_receive
receive_step nodes p last q fits room =
    elim (MailboxStatus-ok (validate_header (some q.header) q.payload q.payload_length)) [
      | inl valid ↦
          rw valid (unfold checked_packet in accept_step nodes p last q.header.sequence fits room)
      | inr bad ↦ refused (validate_header (some q.header) q.payload q.payload_length) bad (
          checked_refused nodes p (at_node p last) q
            (validate_header (some q.header) q.payload q.payload_length) bad)
    ]

-- Whatever packets with 32-bit numbers reach an endpoint in use, forged, corrupted, repeated or out of order, those that
-- it receives are numbered consecutively from its last number on.
pub received-CountsFrom :
    (nodes : Store) (p last : ℕ) (packets : List SimPacket)
    → last < 2 ^ 32
    → Numbered packets
    → CountsFrom (last + 1) (
        received nodes
          (record {
            node = some p;
            rx_window = record { last_sequence = last; initialized = true };
          })
          packets)
received-CountsFrom nodes p last [] room ns = tt
received-CountsFrom nodes p last (q ∷ qs) room ns = elim (receive_step nodes p last q ns.0 room) [
  | taken e r ↦ rw r (
    e,
    rw (← e) (received-CountsFrom (record_rx nodes (some p)) p q.header.sequence qs ns.0 ns.1),
  )
  | refused status bad r ↦
      rw
        (r, accepted_head_refused status q.header.sequence (received nodes (at_node p last) qs) bad)
        (received-CountsFrom nodes p last qs room ns.1)
]

module _ (nodes : Store) (e : Endpoint) (q : SimPacket) (qs : List SimPacket)
    {status : MailboxStatus} {after : Store} {e' : Endpoint}
    (result : mailbox_receive nodes (some e) (some q) ≡ (status, after, some e')) where
  after_delivery : nodes_after nodes e (q ∷ qs) ≡ nodes_after after e' qs
  after_delivery =
      ap (λ (r : MailboxStatus × Store × Option Endpoint). nodes_after r.1 (endpoint_or r.2 e) qs)
        result

  received_delivery :
      received nodes e (q ∷ qs) ≡ accepted_head status q.header.sequence (received after e' qs)
  received_delivery =
      ap
        (λ (r : MailboxStatus × Store × Option Endpoint).
          accepted_head r.0 q.header.sequence (received r.1 (endpoint_or r.2 e) qs))
        result

rx_count-record_rx :
    (nodes : Store) (p x : ℕ)
    → (record_rx nodes (some p) x).rx_count
      ≡ (if x == p then u32 ((nodes p).rx_count + 1) else (nodes x).rx_count)
unfolding record_rx
rx_count-record_rx nodes p x = ground arith

tx_count-record_rx :
    (nodes : Store) (p x : ℕ) → (record_rx nodes (some p) x).tx_count ≡ (nodes x).tx_count
unfolding record_rx
tx_count-record_rx nodes p x = ground arith

-- For 32-bit numbers and counters, the node's receive counter grows by one for each packet received,
-- modulo 2 ^ 32; its transmit
-- counter and the counters of the other nodes stay as they were.
pub received_counts :
    (nodes : Store) (p last : ℕ) (packets : List SimPacket) (x : ℕ)
    → last < 2 ^ 32
    → Numbered packets
    → (nodes p).rx_count < 2 ^ 32
    → ((nodes_after nodes (at_node p last) packets x).rx_count ≡ (
        if x == p
        then u32 ((nodes p).rx_count + length (received nodes (at_node p last) packets))
        else (nodes x).rx_count))
      × ((nodes_after nodes (at_node p last) packets x).tx_count ≡ (nodes x).tx_count)
received_counts nodes p last [] x room ns fits = ground arith
received_counts nodes p last (q ∷ qs) x room ns fits =
    elim (receive_step nodes p last q ns.0 room) [
      | taken e r ↦
          let next = record_rx nodes (some p) in
          let number-lt : (next p).rx_count < 2 ^ 32 =
            ground (arith, rx_count-record_rx nodes p p) in
          let rest = received_counts next p q.header.sequence qs x ns.0 ns.1 number-lt in
          rw
            (
              after_delivery nodes (at_node p last) q qs r,
              received_delivery nodes (at_node p last) q qs r,
            )
            (ground (
              arith,
              rest,
              rx_count-record_rx nodes p x,
              rx_count-record_rx nodes p p,
              tx_count-record_rx nodes p x,
            ))
      | refused status bad r ↦
          rw
            (
              after_delivery nodes (at_node p last) q qs r,
              received_delivery nodes (at_node p last) q qs r,
              accepted_head_refused status q.header.sequence (received nodes (at_node p last) qs)
                  bad,
            )
            (received_counts nodes p last qs x room ns.1 fits)
    ]
