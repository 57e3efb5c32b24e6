-- ===== src/Mailbox.antt =====
-- include/atarix/mailbox.h and src/mailbox/mailbox.c: message types, headers with a CRC, the receive
-- window of sequence numbers, and the ring check. A pointer that may be NULL is an Option; a payload is
-- the bytes that its pointer addresses, beside the length that is passed.
pub mod Integrity
pub mod Window
use atarix.Prelude.{
  ℕ, zero, suc, ◌+◌, ◌/◌, ◌^◌, Bool, true, false, not, ◌&&◌, ◌||◌, Option, none, some, List, [],
  ◌∷◌, take, ltb, ◌==◌, if◌then◌else◌, bit_and, bit_xor,
}
use atarix.Prelude.Int.{ℤ}
use atarix.Prelude.Word.{u16, u32}
use atarix.Ring.{RingStatus, ring_can_access, operation_request}

abbrev pub mailbox_magic : ℕ
mailbox_magic = 0x58424D41

abbrev pub max_payload : ℕ
max_payload = 4096

pub data MailboxStatus : Type 0 where
  ok null invalid_header invalid_length crc_mismatch sequence_error duplicate : MailboxStatus
  out_of_order unknown_type ring_denied policy_denied capability_denied : MailboxStatus
  quarantined busy timeout : MailboxStatus

pub record MailboxHeader : Type 0 where
  pub magic : ℕ
  pub type : ℕ
  pub length : ℕ
  pub sequence : ℕ
  pub crc32 : ℕ

pub record SequenceWindow : Type 0 where
  pub last_sequence : ℕ
  pub initialized : Bool

-- `crc & 1u` chooses the branch; eight rounds for a byte.
unfoldable pub crc32_bits : ℕ → ℕ → ℕ
crc32_bits zero crc = crc
crc32_bits (suc left) crc =
    crc32_bits left (if not (bit_and crc 1 == 0) then bit_xor (crc / 2) 0xEDB88320 else crc / 2)

unfoldable pub crc32_update : ℕ → List ℕ → ℕ
crc32_update crc [] = crc
crc32_update crc (byte ∷ bytes) = crc32_update (crc32_bits 8 (bit_xor crc byte)) bytes

unfoldable pub mailbox_crc32 : Option (List ℕ) → ℕ → ℕ
mailbox_crc32 none length =
    if not (length == 0) then 0 else bit_xor (crc32_update 0xFFFFFFFF []) 0xFFFFFFFF
mailbox_crc32 (some bytes) length = bit_xor (crc32_update 0xFFFFFFFF (take length bytes)) 0xFFFFFFFF

-- PING to CAPABILITY_EVALUATE; the messages 0x0020 to 0x0023 of the lookup service are no cases of
-- the switch.
unfoldable pub message_type_known : ℕ → Bool
message_type_known type =
    type == 0x0001
    || type == 0x0002
    || type == 0x0003
    || type == 0x0004
    || type == 0x0005
    || type == 0x0006
    || type == 0x0007
    || type == 0x0008
    || type == 0x0009
    || type == 0x000A
    || type == 0x000B
    || type == 0x000C

-- `!payload && payload_length != 0u`
abbrev pub missing_payload : Option (List ℕ) → ℕ → Bool
missing_payload none length = not (length == 0)
missing_payload (some bytes) length = false

-- The status, and the header object after the call.
unfoldable pub build_header :
    Option MailboxHeader → ℕ → ℕ → Option (List ℕ) → ℕ → MailboxStatus × Option MailboxHeader
build_header none type sequence payload payload_length = (null, none)
build_header (some header) type sequence payload payload_length =
    if missing_payload payload payload_length
    then (null, some header)
    else if not (message_type_known type)
    then (unknown_type, some header)
    else if ltb max_payload payload_length
    then (invalid_length, some header)
    else (
      ok,
      some (record {
        magic = mailbox_magic;
        type = type;
        length = payload_length;
        sequence = sequence;
        crc32 = mailbox_crc32 payload payload_length;
      }),
    )

unfoldable pub validate_header : Option MailboxHeader → Option (List ℕ) → ℕ → MailboxStatus
validate_header none payload payload_length = null
validate_header (some header) payload payload_length =
    if missing_payload payload payload_length
    then null
    else if not (header.magic == mailbox_magic)
    then invalid_header
    else if not (message_type_known header.type)
    then unknown_type
    else if ltb max_payload header.length || not (header.length == payload_length)
    then invalid_length
    else if not (mailbox_crc32 payload payload_length == header.crc32)
    then crc_mismatch
    else ok

-- The status, and the window after the call.
unfoldable pub sequence_accept : Option SequenceWindow → ℕ → MailboxStatus × Option SequenceWindow
sequence_accept none sequence = (null, none)
sequence_accept (some window) sequence =
    if not window.initialized
    then (ok, some (record { last_sequence = sequence; initialized = true }))
    else if sequence == window.last_sequence
    then (duplicate, some window)
    else if ltb sequence window.last_sequence
    then (out_of_order, some window)
    else if not (sequence == u32 (window.last_sequence + 1))
    then (sequence_error, some window)
    else (ok, some (record window { last_sequence = sequence }))

-- `ring_status != ATARIX_RING_STATUS_ALLOW`
unfoldable pub ring_verdict : RingStatus → MailboxStatus
ring_verdict RingStatus.allow = ok
ring_verdict other = ring_denied

unfoldable pub ring_authorize : ℤ → ℤ → ℕ → MailboxStatus
unfolding ring_verdict
ring_authorize source_ring target_ring message_type =
    if not (message_type_known message_type)
    then unknown_type
    else ring_verdict (ring_can_access source_ring target_ring operation_request)
