-- ===== src/Tests/Mkdiscovery.antt =====
-- mkdiscovery on an array of 4096 bytes of 255, and a header that is patched.
use atarix.Prelude.{ℕ, ◌≡◌, refl, true, none, List, [], ◌∷◌, ◌++◌, length, replicate, arith}
use atarix.Prelude.Outcome.{value, read_le32}
use atarix.Prelude.Outcome.Rules.{Meets}
use atarix.Prelude.Text.{codes}
use atarix.Discovery.Format.{DiscoveryResult}
use atarix.Discovery.Validate.{crc_valid}
use atarix.Tools.Mkdiscovery.{Cursor, max_image, patch_crc32, append_bytes, build_profile}
use atarix.Tools.Mkdiscovery.Command.{Files, scan_arguments, main}
use atarix.Tools.Mkdiscovery.Appends.{Appended, append_bytes-Appended}
use atarix.Tools.Mkdiscovery.Checksums.{HasChecksums, crc_valid-patch_crc32}
use atarix.Tools.Mkdiscovery.Main.{Exits, main-Exits}
use atarix.Tools.Mkdiscovery.Profiles.{build_profile-Answered}
use atarix.Tools.Mkdiscovery.Published.{Answered, published}

abbrev files : Files
files = record { opens = λ path. true; writes = λ path bytes. length bytes }

abbrev arguments : List (List ℕ)
arguments = codes "--profile" ∷ codes "supervisor" ∷ codes "--output" ∷ codes "out" ∷ []

main-Exits_example :
    Exits files
      (scan_arguments none none arguments)
      (main files (replicate max_image 255) arguments)
main-Exits_example = main-Exits files (replicate max_image 255) arguments refl

build_profile-Answered_example :
    Answered
      (published (codes "cpu-card"))
      (build_profile (codes "cpu-card") (replicate max_image 255) max_image)
build_profile-Answered_example =
    build_profile-Answered (codes "cpu-card") (replicate max_image 255) refl

abbrev cursor : Cursor
cursor = record { image = 9 ∷ 9 ∷ 9 ∷ 9 ∷ 9 ∷ []; offset = 1 }

append_bytes-Appended_example :
    Meets ⊥ (λ e. ⊥) (Appended cursor 4 (1 ∷ 2 ∷ [])) (append_bytes cursor 4 (1 ∷ 2 ∷ []))
append_bytes-Appended_example =
    append_bytes-Appended cursor 4 (1 ∷ 2 ∷ []) (omega arith) (omega arith) (omega arith)

abbrev header : List ℕ
header = (1 ∷ 2 ∷ 3 ∷ 4 ∷ 5 ∷ 6 ∷ 7 ∷ 8 ∷ 40 ∷ 0 ∷ 0 ∷ 0 ∷ []) ++ replicate 30 77

header_length : read_le32 {E = DiscoveryResult} header 8 ≡ value 40
unfolding read_le32
header_length = refl

crc_valid-patch_crc32_example :
    HasChecksums (patch_crc32 header 40) 40 × (crc_valid (patch_crc32 header 40) 41 ≡ value true)
crc_valid-patch_crc32_example =
    crc_valid-patch_crc32 header 40 41 header_length (omega arith) (omega arith) (omega arith)
