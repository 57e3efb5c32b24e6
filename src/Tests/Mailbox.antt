-- ===== src/Tests/Mailbox.antt =====
-- A message of two bytes, changed on the way, and receive windows at 4 and at the last number.
use atarix.Prelude.{ℕ, ◌-◌, ◌^◌, ◌≡◌, refl, true, some, List, [], ◌∷◌, arith}
use atarix.Mailbox.{
  MailboxHeader, crc_mismatch, mailbox_magic, mailbox_crc32, message_type_known, build_header,
  validate_header,
}
use atarix.Mailbox.Integrity.{validate_detects_byte}
use atarix.Mailbox.Window.{accepted, CountsFrom, accepted-CountsFrom, accepted_exhausted}

abbrev old : MailboxHeader
old = record { magic = 0; type = 0; length = 0; sequence = 0; crc32 = 0 }

abbrev built : MailboxHeader
built = record {
  magic = mailbox_magic;
  type = 1;
  length = 2;
  sequence = 5;
  crc32 = mailbox_crc32 (some (10 ∷ 20 ∷ [])) 2;
}

validate_detects_byte_example : validate_header (some built) (some (10 ∷ 21 ∷ [])) 2 ≡ crc_mismatch
unfolding build_header message_type_known
validate_detects_byte_example =
    validate_detects_byte old built 1 5 (10 ∷ []) 20 21 [] (ground arith) (omega arith)
      (omega arith) tt (omega arith) refl

abbrev arrivals : List ℕ
arrivals = 5 ∷ 5 ∷ 7 ∷ 6 ∷ 7 ∷ []

accepted-CountsFrom_example :
    CountsFrom 5 (accepted (record { last_sequence = 4; initialized = true }) arrivals)
accepted-CountsFrom_example = accepted-CountsFrom 4 arrivals (omega arith) (ground arith)

accepted_exhausted_example :
    accepted (record { last_sequence = 2 ^ 32 - 1; initialized = true }) (0 ∷ 1 ∷ []) ≡ []
accepted_exhausted_example = accepted_exhausted (0 ∷ 1 ∷ []) (ground arith)
