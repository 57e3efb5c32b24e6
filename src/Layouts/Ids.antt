-- ===== src/Layouts/Ids.antt =====
-- include/atarix/resource_types.h and include/atarix/service_ids.h: the experimental numbers.
use atarix.Prelude.{ℕ, Bool, ◌&&◌, leb}

abbrev experimental_begin : ℕ
experimental_begin = 0x8000

abbrev experimental_end : ℕ
experimental_end = 0xFFFF

unfoldable pub resource_is_experimental : ℕ → Bool
resource_is_experimental resource_type =
    leb experimental_begin resource_type && leb resource_type experimental_end

unfoldable pub service_is_experimental : ℕ → Bool
service_is_experimental service_id =
    leb experimental_begin service_id && leb service_id experimental_end
