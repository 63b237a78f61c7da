-- ===== src/Store/Devices.antt =====
-- internal/store/device_store.go: `PGDeviceStore` over the table `devices` of internal/store/db.go
-- with the key `id`.
use telebook_server.Prelude.{String, none, some, GoMap, lookup, insert, is_some, if◌then◌else◌}
use telebook_server.Model.Errors.{Error, ok, err}
use telebook_server.Model.Action.{Action}
use telebook_server.Model.Book.{Time}
use telebook_server.Model.Device.{Device}

pub record DeviceTable : Type 0 where
  pub devices : GoMap Device

-- The times are the database's own.
unfoldable pub create_device : Device → Time → Action DeviceTable (Unit {0})
create_device d now s = if is_some (lookup d.id s.devices) then (err Error.database_error, s) else (
  ok tt,
  record { devices = insert d.id (record d { created_at = now; last_seen_at = now }) s.devices },
)

unfoldable pub get_device_by_id : String → Action DeviceTable Device
get_device_by_id id s = elim (lookup id s.devices) [
  | none ↦ (err Error.device_not_found, s)
  | some d ↦ (ok d, s)
]

unfoldable pub touch_device : String → Time → Action DeviceTable (Unit {0})
touch_device id now s = elim (lookup id s.devices) [
  | none ↦ (ok tt, s)
  | some d ↦ (ok tt, record { devices = insert id (record d { last_seen_at = now }) s.devices })
]
