-- ===== src/Tools/Mkdiscovery/Main.antt =====
-- How mkdiscovery exits.
use native.Mathlib.Decide.{ℕ_discrete}
use atarix.Prelude.{
  ℕ, ◌≤◌, ◌≡◌, ◌≢◌, refl, sym, ap, ◌∙◌, Bool, true, false, not, Option, none, some, List, [], take,
  length, length-take, ◌==◌, arith, if◌then◌else◌,
}
use atarix.Prelude.Outcome.{fault, fail, value, ◌>>=◌}
use atarix.Discovery.Validate.{validate}
use atarix.Tools.Mkdiscovery.{
  Copied, Profile, refused, built, unknown_profile, does_not_fit, usage, max_image, build_profile,
}
use atarix.Tools.Mkdiscovery.Command.{Files, Run, scan_arguments, write_file, main_with, main}
use atarix.Tools.Mkdiscovery.Profiles.{build_profile-Answered}
use atarix.Tools.Mkdiscovery.Published.{Published, published, database_of, parsed, Answered}
use atarix.Discovery.Parse.{parse}

-- An image of a profile: it passes the validation, and is parsed to what the profile publishes.
abbrev pub IsImageOf : Published → List ℕ → Type 0
IsImageOf p image =
    (length image ≤ max_image)
    × (validate (some image) (length image) ≡ value tt)
    × (parse (some image) (length image) (some (database_of [] [])) ≡ value (parsed p))

-- The ways to exit, by the arguments that were found.
pub data Exits (files : Files) : Option (List ℕ) × Option (List ℕ) → Copied Run → Type 0 where
  no_profile :
      {output : Option (List ℕ)}
      → Exits files (none, output) (value (record { code = 2; message = some usage; file = none }))
  no_output :
      {profile : List ℕ}
      → Exits files
          (some profile, none)
          (value (record { code = 2; message = some usage; file = none }))
  unknown :
      {profile output : List ℕ}
      → published profile ≡ none
      → Exits files
          (some profile, some output)
          (value (record { code = 1; message = some unknown_profile; file = none }))
  not_opened :
      {profile output : List ℕ} (p : Published)
      → published profile ≡ some p
      → files.opens output ≡ false
      → Exits files
          (some profile, some output)
          (value (record { code = 1; message = none; file = none }))
  cut_short :
      {profile output : List ℕ} (p : Published) (image : List ℕ)
      → published profile ≡ some p
      → IsImageOf p image
      → files.opens output ≡ true
      → files.writes output image ≢ length image
      → Exits files
          (some profile, some output)
          (value (record {
            code = 1;
            message = none;
            file = some (output, take (files.writes output image) image);
          }))
  complete :
      {profile output : List ℕ} (p : Published) (image : List ℕ)
      → published profile ≡ some p
      → IsImageOf p image
      → files.opens output ≡ true
      → files.writes output image ≡ length image
      → Exits files
          (some profile, some output)
          (value (record { code = 0; message = none; file = some (output, image) }))

module _ (files : Files) (profile output : List ℕ) (p : Published)
    (known : published profile ≡ some p) where
  write_file-Exits :
      (image : List ℕ) (n : ℕ)
      → length (take n image) ≡ n
      → IsImageOf p (take n image)
      → Exits files (some profile, some output) (write_file files output (built image n))
  unfolding write_file
  write_file-Exits image n size good = opened (files.opens output) refl
    where
      opened :
          (b : Bool)
          → files.opens output ≡ b
          → Exits files
              (some profile, some output)
              (if not b
                then value (record { code = 1; message = none; file = none })
                else if not (files.writes output (take n image) == n)
                then value (record {
                  code = 1;
                  message = none;
                  file = some (output, take (files.writes output (take n image)) (take n image));
                })
                else value
                    (record { code = 0; message = none; file = some (output, take n image) }))
      opened false e = not_opened p known e
      opened true e = elim (ℕ_discrete (files.writes output (take n image)) n) [
        | yes all ↦
            let test : (files.writes output (take n image) == n) ≡ true = ground arith in
            rw test (complete p (take n image) known good e (all ∙ sym size))
        | no short ↦
            let test : (files.writes output (take n image) == n) ≡ false = ground arith in
            rw test (cut_short p (take n image) known good e (λ all. short (all ∙ size)))
      ]

  built-Exits :
      (image : List ℕ) (n : ℕ)
      → Answered (some p) (value (built image n))
      → Exits files (some profile, some output) (write_file files output (built image n))
  built-Exits image n (small, size, valid, parses) =
      let whole : length (take n image) ≡ n = omega (arith, length-take n image) in
      write_file-Exits image n whole (
        omega arith,
        ap (validate (some (take n image))) whole ∙ valid,
        ap (λ k. parse (some (take n image)) k (some (database_of [] []))) whole ∙ parses,
      )

answered-Exits :
    (files : Files) (profile output : List ℕ) (p : Option Published) (m : Copied Profile)
    → published profile ≡ p
    → Answered p m
    → Exits files (some profile, some output) (m >>= write_file files output)
answered-Exits files profile output none (value (refused unknown_profile)) e a =
    unfold write_file in unknown e
answered-Exits files profile output none (value (refused does_not_fit)) e a = absurd a
answered-Exits files profile output none (value (refused usage)) e a = absurd a
answered-Exits files profile output none (value (built image n)) e a = absurd a
answered-Exits files profile output (some p) (value (built image n)) e a =
    built-Exits files profile output p e image n a
answered-Exits files profile output (some p) (value (refused message)) e a = absurd a
answered-Exits files profile output none (fail x) e a = absurd a
answered-Exits files profile output (some p) (fail x) e a = absurd a
answered-Exits files profile output none fault e a = absurd a
answered-Exits files profile output (some p) fault e a = absurd a

-- Whatever the array of 4096 bytes holds, the program ends and copies nothing out of the array's
-- bounds. It exits with 2 for a missing option and with 1 for an unknown profile, in both cases
-- without a file. For a known profile it exits with 1 if the output cannot be opened, with 1 if
-- `fwrite` writes another number of bytes than the image has, and else with 0 and the whole image
-- written. The image is one of the profile: it passes the validation and is parsed to what the
-- profile publishes, up to the clash of a service's handle with a resource's.
pub main-Exits :
    (files : Files) (image : List ℕ) (arguments : List (List ℕ))
    → length image ≡ max_image
    → Exits files (scan_arguments none none arguments) (main files image arguments)
unfolding main
main-Exits files image arguments size = go (scan_arguments none none arguments)
  where
    go :
        (found : Option (List ℕ) × Option (List ℕ))
        → Exits files found (main_with files image found)
    go (none, output) = no_profile
    go (some profile, none) = no_output
    go (some profile, some output) =
        answered-Exits files profile output (published profile)
          (build_profile profile image max_image) refl (build_profile-Answered profile image size)
