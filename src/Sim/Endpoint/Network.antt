-- ===== src/Sim/Endpoint/Network.antt =====
-- What a network between sender and endpoint brings, and what the endpoint receives of it.
use atarix.Prelude.{ℕ, ◌+◌, ◌<◌, ◌≡◌, ◌≢◌, refl, some, List, [], ◌∷◌, ◌++◌, length, get_elem?}
use atarix.Crc.Detect.{AreBytes}
use atarix.Mailbox.{MailboxStatus, ok, MailboxHeader, build_header, validate_header}
use atarix.Sim.Node.{Store}
use atarix.Sim.Endpoint.{SimPacket, Endpoint, mailbox_receive}
use atarix.Sim.Endpoint.Runs.{endpoint_or}

abbrev pub kept_packet : MailboxStatus → SimPacket → List SimPacket → List SimPacket
kept_packet ok q rest = q ∷ rest
kept_packet status q rest = rest

-- The packets that the endpoint receives of those that reach it, in order.
abbrev pub delivered : Store → Endpoint → List SimPacket → List SimPacket
delivered nodes e [] = []
delivered nodes e (q ∷ qs) =
    let (status, after, e') = mailbox_receive nodes (some e) (some q) in
    kept_packet status q (delivered after (endpoint_or e' e) qs)

-- A packet whose header was built for its payload.
abbrev pub IsSent : SimPacket → Type 0
IsSent q =
    (old : MailboxHeader) × (build_header (some old) q.header.type q.header.sequence q.payload
        q.payload_length
      ≡ (ok, some q.header))

-- Packets that were sent with consecutive numbers.
abbrev pub IsStream : ℕ → List SimPacket → Type 0
IsStream start sent =
    (i : ℕ) (q : SimPacket) → get_elem? sent i ≡ some q → (q.header.sequence ≡ start + i) × IsSent q

abbrev pub packet_of : MailboxHeader → List ℕ → SimPacket
packet_of header payload = record {
  header = header;
  payload = some payload;
  payload_length = length payload;
}

-- What the network brings: a packet that was sent, one with a single byte of its payload changed, or any
-- packet whatever that the check of its header refuses.
pub data Arrives (sent : List SimPacket) : SimPacket → Type 0 where
  intact : (i : ℕ) (q : SimPacket) → get_elem? sent i ≡ some q → Arrives sent q
  corrupted :
      (i : ℕ) (header : MailboxHeader) (before : List ℕ) (x y : ℕ) (after : List ℕ)
      → get_elem? sent i ≡ some (packet_of header (before ++ x ∷ after))
      → AreBytes before
      → x < 256
      → y < 256
      → AreBytes after
      → x ≢ y
      → Arrives sent (packet_of header (before ++ y ∷ after))
  rejected :
      (q : SimPacket)
      → validate_header (some q.header) q.payload q.payload_length ≢ ok
      → Arrives sent q

abbrev pub AllArrive : List SimPacket → List SimPacket → Type 0
AllArrive sent [] = Unit
AllArrive sent (q ∷ qs) = Arrives sent q × AllArrive sent qs

-- The packets of `xs`, in order, among those of `ys`.
pub data Within : List SimPacket → List SimPacket → Type 0 where
  done : {ys : List SimPacket} → Within [] ys
  here : {xs ys : List SimPacket} (q : SimPacket) → Within xs ys → Within (q ∷ xs) (q ∷ ys)
  later : {xs ys : List SimPacket} (q : SimPacket) → Within xs ys → Within xs (q ∷ ys)

Within-tail : {q : SimPacket} {xs ys : List SimPacket} → Within (q ∷ xs) ys → Within xs ys
Within-tail (here q w) = later q w
Within-tail (later q w) = later q (Within-tail w)

pub Within-both :
    {a b : SimPacket} {xs ys : List SimPacket} → Within (a ∷ xs) (b ∷ ys) → Within xs ys
Within-both (here q w) = w
Within-both (later q w) = Within-tail w

pub Within-none : {xs : List SimPacket} → Within xs [] → xs ≡ []
Within-none done = refl

pub still_Within :
    {q : SimPacket} {xs ys : List SimPacket}
    → Within xs (q ∷ ys)
    → ((rest : List SimPacket) → xs ≡ q ∷ rest → ⊥)
    → Within xs ys
still_Within done ne = done
still_Within (here {xs} q w) ne = absurd (ne xs refl)
still_Within (later q w) ne = w
