-- ===== src/Locks/Metadata/Codec.antt =====
-- What was written into a lock file is read back.
use ai_infrastructure_as_cod.Prelude.{◌<◌, pos, true, some, ◌≡◌, arith}
use ai_infrastructure_as_cod.Domain.Json.{JsonValue, get_field}
use ai_infrastructure_as_cod.Locks.Metadata.{
  LockMetadata, Format, is_trusted, has_expected, from_mapping, to_json,
}

-- A lock file that was written with trusted metadata and the number of a process is read as what
-- was written.
pub from_mapping-to_json :
    (f : Format) (m : LockMetadata)
    → is_trusted f m ≡ true
    → 0 < m.pid
    → from_mapping f (to_json f m) ≡ some m
unfolding from_mapping to_json has_expected get_field
from_mapping-to_json f m h p = ground (arith, f.parse-print (pos m.pid))

-- Metadata that are read from a file of whatever content are trusted and name a process.
pub from_mapping-trusted :
    (f : Format) (v : JsonValue) (m : LockMetadata)
    → from_mapping f v ≡ some m
    → (is_trusted f m ≡ true) × (0 < m.pid)
unfolding from_mapping
from_mapping-trusted f v m h = ground arith
