-- ===== src/Tools/Mkdiscovery/Appends.antt =====
-- Appends stay within the image's array.
use native.Mathlib.Decide.{dec_lt}
use atarix.Prelude.{
  ℕ, ◌+◌, ◌-◌, ◌%◌, ◌^◌, ◌≤◌, ◌<◌, ◌≡◌, ◌↔◌, refl, sym, ap, ◌∙◌, true, false, List, ◌++◌, take,
  drop, length, length-take, length-drop, take-drop, drop-drop, ltb, arith, if◌then◌else◌,
}
use atarix.Prelude.Outcome.Rules.{Meets, gives}
use atarix.Bib.Bytes.{write_bytes}
use atarix.Bib.Builder.Image.{write_bytes-append, write_bytes-front}
use atarix.Bib.Builder.Writes.{length-write_bytes}
use atarix.Tools.Mkdiscovery.{Cursor, append_bytes}

-- What an append of these bytes leaves: the cursor as it was if they do not fit, and else the image with
-- the bytes at the offset, everything around them as it was, and the offset behind them.
abbrev pub Appended : Cursor → ℕ → List ℕ → ℕ × Cursor → Type 0
Appended c capacity src (status, after) =
    ((status ≡ 0) ↔ (length src ≤ capacity - c.offset))
    × (after ≡ (
        if ltb (capacity - c.offset) (length src) then c else record {
          image = take c.offset c.image ++ (src ++ drop (c.offset + length src) c.image);
          offset = c.offset + length src;
        }))
    × (after.offset ≤ capacity)
    × (length after.image ≡ length c.image)

written_in :
    (image src : List ℕ) (at : ℕ)
    → at + length src ≤ length image
    → write_bytes image at src ≡ take at image ++ (src ++ drop (at + length src) image)
written_in image src at h =
    let front = take at image in
    let size : length front ≡ at = omega (arith, length-take at image) in
    let start : at ≡ length front + 0 = omega arith in
    ap (λ l. write_bytes l at src) (sym (take-drop at image))
    ∙ ap (λ n. write_bytes (front ++ drop at image) n src) start
    ∙ write_bytes-append front (drop at image) 0 src
    ∙ ap (λ l. front ++ l)
        (write_bytes-front (drop at image) src (omega (arith, length-drop at image)))
    ∙ ap (λ l. front ++ (src ++ l)) (drop-drop (length src) at image)

-- An append within an array of the capacity copies nothing past its end. It fails exactly if the
-- bytes do not fit what is left, and then leaves image and offset as they were; else the bytes
-- stand at the offset, which moves behind them, and everything else in the array is as it was.
pub append_bytes-Appended :
    (c : Cursor) (capacity : ℕ) (src : List ℕ)
    → c.offset ≤ capacity
    → capacity ≤ length c.image
    → capacity < 2 ^ 64
    → Meets ⊥ (λ e. ⊥) (Appended c capacity src) (append_bytes c capacity src)
unfolding append_bytes
append_bytes-Appended c capacity src within mapped small =
    let left : (capacity + 2 ^ 64 - c.offset) % 2 ^ 64 ≡ capacity - c.offset = omega arith in
    elim (dec_lt (capacity - c.offset) (length src)) [
      | yes long ↦
          let test : ltb (capacity - c.offset) (length src) ≡ true = ground arith in
          rw (left, test)
            (gives
              ((λ e. absurd (omega arith), λ h. absurd (omega arith)), rw test refl, within, refl))
      | no fits ↦
          let test : ltb (capacity - c.offset) (length src) ≡ false = ground arith in
          let inside : ltb (length c.image) (c.offset + length src) ≡ false = ground arith in
          rw (left, test, inside)
            (gives (
              (λ e. omega arith, λ h. refl),
              rw test (
                  ap (λ l. record { image = l; offset = c.offset + length src })
                    (written_in c.image src c.offset (omega arith))),
              omega arith,
              length-write_bytes c.image c.offset src,
            ))
    ]
