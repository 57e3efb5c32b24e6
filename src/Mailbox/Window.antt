-- ===== src/Mailbox/Window.antt =====
-- The receive window over whole runs: which sequence numbers it accepts, in any order of arrival.
use atarix.Prelude.{
  if◌then◌else◌, ◌==◌, ◌-◌, ℕ, ◌+◌, ◌^◌, ◌<◌, ◌≡◌, ◌↔◌, refl, true, Option, none, some, List, [],
  ◌∷◌, arith,
}
use atarix.Mailbox.{
  MailboxStatus, ok, duplicate, out_of_order, sequence_error, SequenceWindow, sequence_accept,
}

-- What each status means for an initialised window of 32-bit numbers, and that the window changes only
-- for the successor of its last number.
sequence_accept_statuses :
    (last sequence : ℕ)
    → last < 2 ^ 32
    → sequence < 2 ^ 32
    → let (status, after) =
        sequence_accept (some (record { last_sequence = last; initialized = true })) sequence in
      ((status ≡ ok) ↔ (sequence ≡ last + 1))
      × ((status ≡ duplicate) ↔ (sequence ≡ last))
      × ((status ≡ out_of_order) ↔ (sequence < last))
      × ((status ≡ sequence_error) ↔ (last + 1 < sequence))
      × (after
          ≡ some (record {
            last_sequence = if sequence == last + 1 then sequence else last;
            initialized = true;
          }))
unfolding sequence_accept
sequence_accept_statuses last sequence p q = ground arith

-- The window object after a run of sequence numbers, and those that it accepted, in order.
abbrev pub window_after : Option SequenceWindow → SequenceWindow → SequenceWindow
window_after none old = old
window_after (some w) old = w

abbrev pub accepted_head : MailboxStatus → ℕ → List ℕ → List ℕ
accepted_head ok sequence rest = sequence ∷ rest
accepted_head other sequence rest = rest

unfoldable pub accepted : SequenceWindow → List ℕ → List ℕ
accepted w [] = []
accepted w (sequence ∷ arrivals) =
    let (status, after) = sequence_accept (some w) sequence in
    accepted_head status sequence (accepted (window_after after w) arrivals)

abbrev pub Words : List ℕ → Type 0
Words [] = Unit
Words (s ∷ ss) = (s < 2 ^ 32) × Words ss

-- n, n + 1, n + 2, …
abbrev pub CountsFrom : ℕ → List ℕ → Type 0
CountsFrom n [] = Unit
CountsFrom n (s ∷ ss) = (s ≡ n) × CountsFrom (n + 1) ss

abbrev pub open_window : ℕ → SequenceWindow
open_window last = record { last_sequence = last; initialized = true }

accepted-next :
    (last sequence : ℕ) (arrivals : List ℕ)
    → last < 2 ^ 32
    → sequence < 2 ^ 32
    → accepted (open_window last) (sequence ∷ arrivals) ≡ (
        if sequence == last + 1
        then sequence ∷ accepted (open_window sequence) arrivals
        else accepted (open_window last) arrivals)
unfolding accepted sequence_accept
accepted-next last sequence arrivals p q = ground arith

-- Whatever 32-bit numbers arrive, duplicated, reordered or with gaps, an initialised window accepts
-- consecutive
-- numbers that follow its last one: nothing twice, nothing out of order, nothing skipped.
pub accepted-CountsFrom :
    (last : ℕ) (arrivals : List ℕ)
    → last < 2 ^ 32
    → Words arrivals
    → CountsFrom
        (last + 1)
        (accepted (record { last_sequence = last; initialized = true }) arrivals)
accepted-CountsFrom last [] p ws = unfold accepted in tt
accepted-CountsFrom last (s ∷ ss) p ws = ground (
  arith,
  accepted-next last s ss p ws.0,
  accepted-CountsFrom s ss ws.0 ws.1,
  accepted-CountsFrom last ss p ws.1,
)

-- An in-order stream is accepted whole, as long as its numbers fit 32 bits.
accepted_in_order :
    (last : ℕ) (arrivals : List ℕ)
    → Words arrivals
    → last < 2 ^ 32
    → CountsFrom (last + 1) arrivals
    → accepted (record { last_sequence = last; initialized = true }) arrivals ≡ arrivals
accepted_in_order last [] ws p c = unfold accepted in refl
accepted_in_order last (s ∷ ss) ws p c =
    ground (arith, accepted-next last s ss p ws.0, accepted_in_order s ss ws.1 ws.0)

-- At the last 32-bit number the window is stuck: no number is ever accepted again.
pub accepted_exhausted :
    (arrivals : List ℕ)
    → Words arrivals
    → accepted (record { last_sequence = 2 ^ 32 - 1; initialized = true }) arrivals ≡ []
accepted_exhausted [] ws = unfold accepted in refl
accepted_exhausted (s ∷ ss) ws =
    ground (arith, accepted-next (2 ^ 32 - 1) s ss (omega arith) ws.0, accepted_exhausted ss ws.1)
