-- ===== src/Identifier.antt =====
-- 00_Base/src/interfaces/cache/types.ts: the identifier of a connection, the tenant's number and the
-- station's name joined by a colon, and its two parts again.
pub mod Parts
mod Tests
use rexharge_citrineos_core.Prelude.{ℕ, String, Option, some, List, [], ◌∷◌, str_eq, if◌then◌else◌}
use rexharge_citrineos_core.Prelude.Text.{colon_join, split}
use rexharge_citrineos_core.Prelude.Decimal.{print, parse}

-- The names under which the parts of the program share one cache.
pub data CacheNamespace : Type 0 where
  central_system charging_station transactions connections protocol other : CacheNamespace

-- the enum's values
abbrev pub namespace_text : CacheNamespace → String
namespace_text central_system = "csms"
namespace_text charging_station = "cs"
namespace_text transactions = "tx"
namespace_text connections = "conn"
namespace_text protocol = "prtcl"
namespace_text other = "other"

-- createIdentifier, with the station as its one further part
unfoldable pub create_identifier : ℕ → String → String
create_identifier tenant station = colon_join (print tenant) station

abbrev default_tenant_id : ℕ
default_tenant_id = 1

tenant_of : List String → Option ℕ
tenant_of [] = some default_tenant_id
tenant_of (part ∷ parts) = if str_eq part "" then some default_tenant_id else parse part

-- getTenantIdFromIdentifier; `none` is the NaN of a first part that is no number
unfoldable pub get_tenant_id : String → Option ℕ
unfolding tenant_of
get_tenant_id identifier = tenant_of (split b':' identifier)

station_of : String → List String → String
station_of identifier (part ∷ station ∷ parts) = station
station_of identifier parts = identifier

-- getStationIdFromIdentifier
unfoldable pub get_station_id : String → String
unfolding station_of
get_station_id identifier = station_of identifier (split b':' identifier)
