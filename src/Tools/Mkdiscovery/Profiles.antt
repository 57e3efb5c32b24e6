-- ===== src/Tools/Mkdiscovery/Profiles.antt =====
-- The images that mkdiscovery builds are the ones that src/discovery accepts.
use atarix.Prelude.{
  ℕ, ◌+◌, ◌≤◌, ◌≡◌, refl, sym, ap, ◌∙◌, Bool, true, false, List, ◌++◌, length, length-replicate,
  drop, drop_all, append_nil, subst, replicate, ltb, arith,
}
use atarix.Prelude.Outcome.{value, ◌>>=◌, read_le16, read_le32, read_le64}
use atarix.Prelude.Text.{codes, same_text, same_text-eq}
use atarix.Bib.Bytes.{write_bytes, write_le16, write_le32}
use atarix.Bib.Builder.Image.{write_bytes-front}
use atarix.Discovery.Format.{header_size, magic_is_valid, aligned8, make_handle}
use atarix.Discovery.Database.{database_contains_handle, holds_handle}
use atarix.Discovery.Parse.{
  parse, parse_validated, parse_from, first_record, next_record, add_record, add_resource,
  add_service,
}
use atarix.Discovery.Validate
use atarix.Discovery.Validate.{
  first_bytes, image_crc_valid, crc_valid, walk, validate_records, validate_header, validate,
}
use atarix.Tools.Mkdiscovery.{
  Copied, Profile, Building, max_image, crc32_bits, crc32_update, crc32_iso_hdlc, patch_crc32,
  append_bytes, append_end, append_resource, append_service, append_profile, finish, start_image,
  build_profile,
}
use atarix.Tools.Mkdiscovery.Published.{Answered, published}

-- The header over zeros, and what follows it.
abbrev cleared : Building
cleared = record {
  append_status = 0;
  cursor = record {
    image =
        write_le32 (write_le16 (write_le16 (write_le32 (replicate 4096 0) 0 0x58445441) 4 1) 6 0) 16
          3;
    offset = 32;
  };
  record_count = 0;
}

abbrev build_cleared : List ℕ → Copied Profile
build_cleared profile = append_profile profile cleared 4096 >>= λ b. finish b 4096

-- The image of each profile, computed.
profile_images :
    Answered (published (codes "minimal")) (build_cleared (codes "minimal"))
    × Answered (published (codes "cpu-card")) (build_cleared (codes "cpu-card"))
    × Answered (published (codes "supervisor")) (build_cleared (codes "supervisor"))
    × Answered (published (codes "instrumentation")) (build_cleared (codes "instrumentation"))
unfolding append_profile finish append_end append_bytes append_resource append_service patch_crc32
    crc32_iso_hdlc crc32_update crc32_bits write_bytes write_le16 write_le32 validate
    validate_header validate_records walk crc_valid image_crc_valid first_bytes
    Validate.crc32_iso_hdlc Validate.crc32_update Validate.crc32_bits read_le16 read_le32 read_le64
    magic_is_valid aligned8 make_handle parse parse_validated parse_from first_record next_record
    add_record add_resource add_service database_contains_handle holds_handle
profile_images = (
  (omega arith, refl, refl, refl),
  (omega arith, refl, refl, refl),
  (omega arith, refl, refl, refl),
  (omega arith, refl, refl, refl),
)

start_image-eq :
    (image : List ℕ) (n : ℕ)
    → header_size ≤ n
    → length image ≡ n
    → start_image image n
      ≡ value (
          write_le32
            (write_le16 (write_le16 (write_le32 (replicate n 0) 0 0x58445441) 4 1) 6 0)
            16
            3)
unfolding start_image
start_image-eq image n room size =
    let zeros : length (replicate {A = ℕ} n 0) ≡ n = length-replicate n 0 in
    let whole : write_bytes image 0 (replicate n 0) ≡ replicate n 0 =
      write_bytes-front image (replicate n 0) (omega arith)
      ∙ ap (λ k. replicate n 0 ++ drop k image) (zeros ∙ sym size)
      ∙ ap (λ l. replicate n 0 ++ l) (drop_all image)
      ∙ append_nil (replicate n 0) in
    let inside : ltb (length image) (0 + length (replicate {A = ℕ} n 0)) ≡ false = ground arith in
    let header : ltb (length (replicate {A = ℕ} n 0)) header_size ≡ false = ground arith in
    rw (inside, whole, header) refl

unknown_image :
    (profile : List ℕ)
    → same_text profile (codes "minimal") ≡ false
    → same_text profile (codes "cpu-card") ≡ false
    → same_text profile (codes "supervisor") ≡ false
    → same_text profile (codes "instrumentation") ≡ false
    → Answered (published profile) (build_cleared profile)
unfolding append_profile finish
unknown_image profile a b c d = rw (a, b, c, d) tt

cleared-Answered : (profile : List ℕ) → Answered (published profile) (build_cleared profile)
cleared-Answered profile = minimal (same_text profile (codes "minimal")) refl
  where
    known :
        (name : List ℕ)
        → same_text profile name ≡ true
        → Answered (published name) (build_cleared name)
        → Answered (published profile) (build_cleared profile)
    known name e answered =
        subst (λ p. Answered (published p) (build_cleared p)) (sym (same_text-eq profile name e))
          answered

    last :
        (d : Bool)
        → same_text profile (codes "instrumentation") ≡ d
        → same_text profile (codes "minimal") ≡ false
        → same_text profile (codes "cpu-card") ≡ false
        → same_text profile (codes "supervisor") ≡ false
        → Answered (published profile) (build_cleared profile)
    last true e a b c = known (codes "instrumentation") e profile_images.3
    last false e a b c = unknown_image profile a b c e

    supervisor :
        (d : Bool)
        → same_text profile (codes "supervisor") ≡ d
        → same_text profile (codes "minimal") ≡ false
        → same_text profile (codes "cpu-card") ≡ false
        → Answered (published profile) (build_cleared profile)
    supervisor true e a b = known (codes "supervisor") e profile_images.2
    supervisor false e a b = last (same_text profile (codes "instrumentation")) refl a b e

    cpu_card :
        (d : Bool)
        → same_text profile (codes "cpu-card") ≡ d
        → same_text profile (codes "minimal") ≡ false
        → Answered (published profile) (build_cleared profile)
    cpu_card true e a = known (codes "cpu-card") e profile_images.1
    cpu_card false e a = supervisor (same_text profile (codes "supervisor")) refl a e

    minimal :
        (d : Bool)
        → same_text profile (codes "minimal") ≡ d
        → Answered (published profile) (build_cleared profile)
    minimal true e = known (codes "minimal") e profile_images.0
    minimal false e = cpu_card (same_text profile (codes "cpu-card")) refl e

-- Whatever is in the array of 4096 bytes before, a name that is no profile's is refused, and a profile
-- is built to an image within the array that passes the validation. Parsed into an empty database with
-- room for two resources and two services, it gives the resources and services of the profile, unless
-- the first service has the number of a resource: then their handles are the same, and the parser
-- stops at the service with DUPLICATE_HANDLE.
pub build_profile-Answered :
    (profile image : List ℕ)
    → length image ≡ max_image
    → Answered (published profile) (build_profile profile image max_image)
unfolding build_profile
build_profile-Answered profile image size =
    rw (start_image-eq image max_image (omega arith) size) (cleared-Answered profile)
