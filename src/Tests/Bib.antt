-- ===== src/Tests/Bib.antt =====
-- The first 64 bytes of a block whose total length is 0.
use atarix.Prelude.{ℕ, some, List, [], ◌∷◌, ◌++◌, replicate, arith}
use atarix.Prelude.Outcome.{IsSafe}
use atarix.Bib.Format.{magic}
use atarix.Bib.Reader.{zero_view, reader_open}
use atarix.Bib.Reader.Safety.{reader_open-IsSafe}

abbrev header_bytes : List ℕ
header_bytes = magic ++ (1 ∷ 0 ∷ 0 ∷ 0 ∷ 64 ∷ 0 ∷ []) ++ replicate 50 0

reader_open-IsSafe_example : IsSafe (reader_open (some zero_view) (some header_bytes) 64)
reader_open-IsSafe_example = reader_open-IsSafe zero_view header_bytes 64 (omega arith)
