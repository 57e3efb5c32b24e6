-- ===== src/Sim/Endpoint/Channel.antt =====
-- An endpoint behind a network that loses, repeats, reorders and corrupts packets, compared with a
-- channel that hands them on in order.
use atarix.Prelude.{
  ℕ, ◌+◌, ◌^◌, ◌≤◌, ◌<◌, ◌≡◌, ◌≢◌, refl, inr, sym, ap, ◌∙◌, subst, Option, some, List, [], ◌∷◌,
  ◌++◌, length, length-append, append_assoc, get_elem?, get_elem?-append, get_elem?-lt, arith,
}
use atarix.Mailbox.{MailboxStatus, ok, crc_mismatch, validate_header, sequence_accept}
use atarix.Mailbox.Integrity.{validate-build, validate_detects_byte}
use atarix.Sim.Node.{Store, record_rx}
use atarix.Sim.Endpoint.{SimPacket, Endpoint, accepted_packet, mailbox_receive}
use atarix.Mailbox.Window.{open_window}
use atarix.Sim.Endpoint.Delivery.{accept_expected}
use atarix.Sim.Endpoint.Runs.{taken, refused, at_node, endpoint_or, checked_refused, receive_step}
use atarix.Sim.Endpoint.Network.{
  kept_packet, delivered, IsSent, IsStream, packet_of, Arrives, intact, corrupted, rejected,
  AllArrive, Within, Within-both, Within-none, still_Within,
}

-- What one arrival does, where `ahead` is still to come.
data Step (nodes : Store) (p last : ℕ) (ahead : List SimPacket) (q : SimPacket) : Type 0 where
  next :
      (rest : List SimPacket)
      → ahead ≡ q ∷ rest
      → mailbox_receive nodes (some (at_node p last)) (some q)
        ≡ (ok, record_rx nodes (some p), some (at_node p (last + 1)))
      → Step nodes p last ahead q
  ignored :
      (status : MailboxStatus)
      → status ≢ ok
      → mailbox_receive nodes (some (at_node p last)) (some q)
        ≡ (status, nodes, some (at_node p last))
      → Step nodes p last ahead q

refused_packet :
    (nodes : Store) (p last : ℕ) (q : SimPacket)
    → validate_header (some q.header) q.payload q.payload_length ≢ ok
    → mailbox_receive nodes (some (at_node p last)) (some q)
      ≡ (validate_header (some q.header) q.payload q.payload_length, nodes, some (at_node p last))
unfolding mailbox_receive
refused_packet nodes p last q bad =
    checked_refused nodes p (at_node p last) q
      (validate_header (some q.header) q.payload q.payload_length) bad

mismatch_not_ok : crc_mismatch ≢ ok
mismatch_not_ok h = cc

head_of :
    (xs : List SimPacket) (q : SimPacket)
    → get_elem? xs 0 ≡ some q
    → (rest : List SimPacket) × (xs ≡ q ∷ rest)
head_of [] q h = absurd cc
head_of (x ∷ xs) q h = let same : x ≡ q = cc in (xs, rw same refl)

module _ (sent : List SimPacket) (start : ℕ) (stream : IsStream start sent)
    (words : start + length sent ≤ 2 ^ 32) (nodes : Store) (p last : ℕ) where
  arrival-Step :
      (done ahead : List SimPacket) (q : SimPacket)
      → sent ≡ done ++ ahead
      → last + 1 ≡ start + length done
      → last < 2 ^ 32
      → Arrives sent q
      → Step nodes p last ahead q
  arrival-Step done ahead q split at room (intact i q' found) =
      let (number, built) = stream i q' found in
      elim (receive_step nodes p last q (omega (arith, get_elem?-lt sent i found)) room) [
        | taken e r ↦
            let here : i ≡ length done + 0 = omega arith in
            let first : get_elem? ahead 0 ≡ some q =
              sym (get_elem?-append done ahead 0)
              ∙ ap (get_elem? (done ++ ahead)) (sym here)
              ∙ ap (λ l. get_elem? l i) (sym split)
              ∙ found in
            let (rest, is_head) = head_of ahead q first in
            next rest is_head (
              subst
                (λ n.
                  mailbox_receive nodes (some (at_node p last)) (some q)
                  ≡ (ok, record_rx nodes (some p), some (at_node p n)))
                e r)
        | refused status bad r ↦ ignored status bad r
      ]
  arrival-Step done ahead q split at room
        (corrupted i header before x y after found bs hx hy rs ne) =
      let (number, (old, built)) = stream i (packet_of header (before ++ x ∷ after)) found in
      let q' = packet_of header (before ++ y ∷ after) in
      let mismatch : validate_header (some q'.header) q'.payload q'.payload_length ≡ crc_mismatch =
        validate_detects_byte old header header.type header.sequence before x y after bs hx hy rs ne
          built in
      let bad : validate_header (some q'.header) q'.payload q'.payload_length ≢ ok =
        λ valid. mismatch_not_ok (sym mismatch ∙ valid) in
      ignored (validate_header (some q'.header) q'.payload q'.payload_length) bad
        (refused_packet nodes p last q' bad)
  arrival-Step done ahead q split at room (rejected q' bad) =
      ignored (validate_header (some q'.header) q'.payload q'.payload_length) bad
        (refused_packet nodes p last q' bad)

module _ (nodes : Store) (p last : ℕ) (q : SimPacket) (qs : List SimPacket) where
  delivered-next :
      mailbox_receive nodes (some (at_node p last)) (some q)
        ≡ (ok, record_rx nodes (some p), some (at_node p (last + 1)))
      → delivered nodes (at_node p last) (q ∷ qs)
        ≡ q ∷ delivered (record_rx nodes (some p)) (at_node p (last + 1)) qs
  delivered-next result =
      ap
        (λ (r : MailboxStatus × Store × Option Endpoint).
          kept_packet r.0 q (delivered r.1 (endpoint_or r.2 (at_node p last)) qs))
        result

  delivered-ignored :
      (status : MailboxStatus)
      → status ≢ ok
      → mailbox_receive nodes (some (at_node p last)) (some q)
        ≡ (status, nodes, some (at_node p last))
      → delivered nodes (at_node p last) (q ∷ qs) ≡ delivered nodes (at_node p last) qs
  delivered-ignored status bad result =
      ap
        (λ (r : MailboxStatus × Store × Option Endpoint).
          kept_packet r.0 q (delivered r.1 (endpoint_or r.2 (at_node p last)) qs))
        result
      ∙ not_kept status bad
    where
      not_kept :
          (s : MailboxStatus)
          → s ≢ ok
          → kept_packet s q (delivered nodes (at_node p last) qs)
            ≡ delivered nodes (at_node p last) qs
      not_kept ok ne = absurd (ne refl)
      not_kept _ ne = refl

module _ (sent : List SimPacket) (start : ℕ) (stream : IsStream start sent)
    (words : start + length sent ≤ 2 ^ 32) (p : ℕ) where
  delivered-Prefix :
      (nodes : Store) (last : ℕ) (passed ahead arrivals : List SimPacket)
      → sent ≡ passed ++ ahead
      → last + 1 ≡ start + length passed
      → AllArrive sent arrivals
      → (rest : List SimPacket) × (delivered nodes (at_node p last) arrivals ++ rest ≡ ahead)
  delivered-Prefix nodes last passed ahead [] split at arrive = (ahead, refl)
  delivered-Prefix nodes last passed ahead (q ∷ qs) split at (arrives, others) =
      elim (arrival-Step sent start stream words nodes p last passed ahead q split at
        (omega (arith, ap (λ l. length l) split, length-append passed ahead)) arrives) [
          | next rest is_head r ↦
              let (left, same) =
                delivered-Prefix (record_rx nodes (some p)) (last + 1) (passed ++ q ∷ []) rest qs
                  (split ∙ ap (λ l. passed ++ l) is_head ∙ sym (append_assoc passed (q ∷ []) rest))
                  (omega (arith, length-append passed (q ∷ []))) others in
              (
                left,
                ap (λ l. l ++ left) (delivered-next nodes p last q qs r)
                    ∙ ap (λ l. q ∷ l) same
                    ∙ sym is_head,
              )
          | ignored status bad r ↦
              let (left, same) = delivered-Prefix nodes last passed ahead qs split at others in
              (left, ap (λ l. l ++ left) (delivered-ignored nodes p last q qs status bad r) ∙ same)
        ]

-- The expected packet, as it was sent, is received.
expected_received :
    (nodes : Store) (p last : ℕ) (q : SimPacket)
    → IsSent q
    → q.header.sequence ≡ last + 1
    → q.header.sequence < 2 ^ 32
    → mailbox_receive nodes (some (at_node p last)) (some q)
      ≡ (ok, record_rx nodes (some p), some (at_node p (last + 1)))
unfolding mailbox_receive
expected_received nodes p last q (old, built) e fits =
    let valid =
      validate-build old q.header q.header.type q.header.sequence q.payload q.payload_length
        built in
    let accepts : sequence_accept (some (open_window last)) q.header.sequence
        ≡ (ok, some (open_window q.header.sequence)) =
      accept_expected (open_window last) q.header.sequence (inr (refl, e, fits)) in
    rw (valid, accepts)
      (unfold accepted_packet in
        ap (λ (n : ℕ). (ok, record_rx nodes (some p), some (at_node p n))) e)

module _ (sent : List SimPacket) (start : ℕ) (stream : IsStream start sent)
    (words : start + length sent ≤ 2 ^ 32) (p : ℕ) where
  expected_first :
      (nodes : Store) (last : ℕ) (passed : List SimPacket) (q : SimPacket) (rest : List SimPacket)
      → sent ≡ passed ++ q ∷ rest
      → last + 1 ≡ start + length passed
      → mailbox_receive nodes (some (at_node p last)) (some q)
        ≡ (ok, record_rx nodes (some p), some (at_node p (last + 1)))
  expected_first nodes last passed q rest split at =
      let found : get_elem? sent (length passed + 0) ≡ some q =
        ap (λ l. get_elem? l (length passed + 0)) split ∙ get_elem?-append passed (q ∷ rest) 0 in
      let (number, built) = stream (length passed + 0) q found in
      expected_received nodes p last q built (omega arith)
        (omega (arith, get_elem?-lt sent (length passed + 0) found))

  delivered_whole :
      (nodes : Store) (last : ℕ) (passed ahead arrivals : List SimPacket)
      → sent ≡ passed ++ ahead
      → last + 1 ≡ start + length passed
      → AllArrive sent arrivals
      → Within ahead arrivals
      → delivered nodes (at_node p last) arrivals ≡ ahead
  delivered_whole nodes last passed ahead [] split at arrive w = sym (Within-none w)
  delivered_whole nodes last passed ahead (q ∷ qs) split at (arrives, others) w =
      elim (arrival-Step sent start stream words nodes p last passed ahead q split at
        (omega (arith, ap (λ l. length l) split, length-append passed ahead)) arrives) [
          | next rest is_head r ↦
              delivered-next nodes p last q qs r
              ∙ ap (λ l. q ∷ l)
                  (delivered_whole (record_rx nodes (some p)) (last + 1) (passed ++ q ∷ []) rest qs
                    (split
                      ∙ ap (λ l. passed ++ l) is_head
                      ∙ sym (append_assoc passed (q ∷ []) rest))
                    (omega (arith, length-append passed (q ∷ []))) others
                    (Within-both (subst (λ l. Within l (q ∷ qs)) is_head w)))
              ∙ sym is_head
          | ignored status bad r ↦
              delivered-ignored nodes p last q qs status bad r
              ∙ delivered_whole nodes last passed ahead qs split at others (
                  still_Within w (λ xs is_head. bad (
                    sym (
                      ap (λ (x : MailboxStatus × Store × Option Endpoint). x.0)
                        (sym (
                            expected_first nodes last passed q xs
                              (split ∙ ap (λ l. passed ++ l) is_head) at)
                          ∙ r)))))
        ]

-- Over a network that loses, repeats and reorders the packets of a stream, changes a single byte
-- of a packet's payload, and brings any other packets that the check of their header refuses, an
-- endpoint that waits for the first number of the stream receives a prefix of the stream: the
-- packets as they were sent, in order, each once. The stream's numbers fit 32 bits.
pub delivered-prefix :
    (sent arrivals : List SimPacket) (last : ℕ) (nodes : Store) (p : ℕ)
    → IsStream (last + 1) sent
    → last + 1 + length sent ≤ 2 ^ 32
    → AllArrive sent arrivals
    → (rest : List SimPacket) × (delivered nodes (at_node p last) arrivals ++ rest ≡ sent)
delivered-prefix sent arrivals last nodes p stream words arrive =
    delivered-Prefix sent (last + 1) stream words p nodes last [] sent arrivals refl (omega arith)
      arrive

-- Over the same network, the endpoint receives the whole stream if its packets are among the
-- arrivals in their order, with whatever other arrivals of this network between them: repeated or
-- reordered packets of the stream, packets with a single byte of the payload changed, and packets
-- that the check of their header refuses. The stream's numbers fit 32 bits.
pub delivered-all :
    (sent arrivals : List SimPacket) (last : ℕ) (nodes : Store) (p : ℕ)
    → IsStream (last + 1) sent
    → last + 1 + length sent ≤ 2 ^ 32
    → AllArrive sent arrivals
    → Within sent arrivals
    → delivered nodes (at_node p last) arrivals ≡ sent
delivered-all sent arrivals last nodes p stream words arrive within =
    delivered_whole sent (last + 1) stream words p nodes last [] sent arrivals refl (omega arith)
      arrive within
