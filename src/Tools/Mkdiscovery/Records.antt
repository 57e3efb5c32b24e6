-- ===== src/Tools/Mkdiscovery/Records.antt =====
-- The numbers and the record structures that tools/mkdiscovery/mkdiscovery.c takes from
-- include/atarix/resource_types.h, service_ids.h and discovery.h.
use atarix.Prelude.{ℕ, List, ◌++◌}
use atarix.Bib.Bytes.{le16, le32}
use atarix.Bib.Layout.{le64}

-- The resource types and service ids of the profiles.
abbrev pub resource_supervisor : ℕ
resource_supervisor = 0x0010

abbrev pub resource_logic_analyzer : ℕ
resource_logic_analyzer = 0x1000

abbrev pub resource_cpu : ℕ
resource_cpu = 0x2000

abbrev pub resource_cpu_health : ℕ
resource_cpu_health = 0x2003

abbrev pub service_health : ℕ
service_health = 0x0006

abbrev pub service_instrumentation : ℕ
service_instrumentation = 0x1000

abbrev pub service_cpu_diagnostics : ℕ
service_cpu_diagnostics = 0x2000

abbrev pub service_cpu_health : ℕ
service_cpu_health = 0x2001

-- The packed structures, and their bytes on a little-endian machine.
pub record RecordHeader : Type 0 where
  pub type : ℕ
  pub version : ℕ
  pub length : ℕ

pub record ResourceRecord : Type 0 where
  pub header : RecordHeader
  pub resource_type_id : ℕ
  pub resource_version : ℕ
  pub resource_flags : ℕ
  pub resource_handle : ℕ
  pub provider_id : ℕ
  pub instance_id : ℕ

pub record ServiceRecord : Type 0 where
  pub header : RecordHeader
  pub service_id : ℕ
  pub service_version : ℕ
  pub service_flags : ℕ
  pub service_handle : ℕ
  pub provider_id : ℕ
  pub instance_id : ℕ

abbrev pub header_bytes : RecordHeader → List ℕ
header_bytes h = le16 h.type ++ le16 h.version ++ le32 h.length

abbrev pub resource_bytes : ResourceRecord → List ℕ
resource_bytes r =
    header_bytes r.header
    ++ le16 r.resource_type_id
    ++ le16 r.resource_version
    ++ le32 r.resource_flags
    ++ le64 r.resource_handle
    ++ le32 r.provider_id
    ++ le32 r.instance_id

abbrev pub service_bytes : ServiceRecord → List ℕ
service_bytes r =
    header_bytes r.header
    ++ le16 r.service_id
    ++ le16 r.service_version
    ++ le32 r.service_flags
    ++ le64 r.service_handle
    ++ le32 r.provider_id
    ++ le32 r.instance_id
