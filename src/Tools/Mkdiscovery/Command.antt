-- ===== src/Tools/Mkdiscovery/Command.antt =====
-- The command line of tools/mkdiscovery/mkdiscovery.c.
use atarix.Prelude.{ℕ, Bool, not, Option, none, some, List, [], ◌∷◌, take, ◌==◌, if◌then◌else◌}
use atarix.Prelude.Outcome.{value, ◌>>=◌}
use atarix.Prelude.Text.{codes, same_text}
use atarix.Tools.Mkdiscovery.{
  Copied, Message, Profile, build_profile, built, max_image, refused, usage,
}

-- The file system: whether `fopen(path, "wb")` succeeds, and how many bytes `fwrite` writes.
pub record Files : Type 0 where
  pub opens : List ℕ → Bool
  pub writes : List ℕ → List ℕ → ℕ

-- The loop over the arguments behind the program's name.
unfoldable pub scan_arguments :
    Option (List ℕ) → Option (List ℕ) → List (List ℕ) → Option (List ℕ) × Option (List ℕ)
scan_arguments profile output [] = (profile, output)
scan_arguments profile output (a ∷ []) = (profile, output)
scan_arguments profile output (a ∷ b ∷ arguments) =
    let as_profile = scan_arguments (some b) output arguments in
    let as_output = scan_arguments profile (some b) arguments in
    let skipped = scan_arguments profile output (b ∷ arguments) in
    if same_text a (codes "--profile")
    then as_profile
    else if same_text a (codes "--output")
    then as_output
    else skipped

-- The exit code, what was printed, and the path and bytes that were written.
pub record Run : Type 0 where
  pub code : ℕ
  pub message : Option Message
  pub file : Option (List ℕ × List ℕ)

unfoldable pub write_file : Files → List ℕ → Profile → Copied Run
write_file files output (refused message) =
    value (record { code = 1; message = some message; file = none })
write_file files output (built image image_length) =
    if not (files.opens output)
    then value (record { code = 1; message = none; file = none })
    else if not (files.writes output (take image_length image) == image_length)
    then value (record {
      code = 1;
      message = none;
      file =
          some (
            output,
            take (files.writes output (take image_length image)) (take image_length image),
          );
    })
    else value (record { code = 0; message = none; file = some (output, take image_length image) })

-- The local array `image` is given with the bytes that happen to be in it.
abbrev pub main_with : Files → List ℕ → Option (List ℕ) × Option (List ℕ) → Copied Run
main_with files image (none, output) =
    value (record { code = 2; message = some usage; file = none })
main_with files image (some profile, none) =
    value (record { code = 2; message = some usage; file = none })
main_with files image (some profile, some output) = do
  built_profile ← build_profile profile image max_image
  write_file files output built_profile

unfoldable pub main : Files → List ℕ → List (List ℕ) → Copied Run
unfolding build_profile write_file
main files image arguments = main_with files image (scan_arguments none none arguments)
