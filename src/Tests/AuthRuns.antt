-- ===== src/Tests/AuthRuns.antt =====
-- Registration and refresh of one device.
use telebook_server.Service.Auth.Registration.{registered_refreshes}
use telebook_server.Model.Device.{RefreshResponse, RegisterRequest}
use telebook_server.Model.Errors.{Error, err, ok}
use telebook_server.Service.Auth.Rotation.{refresh_once, another_call}
use telebook_server.Prelude.{◌+◌, ◌<◌, ◌≤◌, ◌≡◌, refl, true, [], ◌==◌, lookup, insert, erase}
use telebook_server.Service.Auth.{
  AuthService, AuthState, register, refresh, ensure_device, create_new, created, new_refresh_token,
  refresh_token_hash, refresh_known, refresh_for,
}
use telebook_server.Store.Tokens.{
  new_memory_token_store, save_refresh_token, delete_refresh_token, get_device_by_refresh_token,
}
use telebook_server.Store.Devices.{get_device_by_id, create_device, touch_device}

abbrev pub sample_auth : AuthService
sample_auth = record {
  sync_secret = "key";
  refresh_ttl = 10;
  hash_password = λ p. ok "hash";
  issue = λ id name now. ok id;
  sha256 = λ t. t;
  now = 5;
  random_token = "t1";
}

abbrev pub nobody : AuthState
nobody = record { devices = record { devices = [] }; tokens = new_memory_token_store }

abbrev pub phone : RegisterRequest
phone = record { connection_key = "key"; device_id = "d"; device_name = "n"; platform = "ios" }

phone_registered :
    (register sample_auth phone nobody).0
    ≡ ok (record { access_token = "d"; refresh_token = "t1"; device_id = "d" })
unfolding register ensure_device create_new created new_refresh_token refresh_token_hash
    save_refresh_token get_device_by_id create_device touch_device lookup insert
phone_registered = refl

registered_refreshes_example :
    (("key" == "key") ≡ true)
    × (15 ≤ 5 + 10
        → (q : RefreshResponse) × ((refresh
              (another_call sample_auth 15 "t2")
              "t1"
              (register sample_auth phone nobody).1).0
            ≡ ok q))
    × (5 + 10 < 15
        → refresh (another_call sample_auth 15 "t2") "t1" (register sample_auth phone nobody).1
          ≡ (err Error.invalid_refresh_token, (register sample_auth phone nobody).1))
registered_refreshes_example =
    registered_refreshes sample_auth phone nobody
      (record { access_token = "d"; refresh_token = "t1"; device_id = "d" }) 15 "t2"
      phone_registered (λ id name. (id, refl))

abbrev second_call : AuthService
second_call = another_call sample_auth 8 "t2"

abbrev pub with_phone : AuthState
with_phone = (register sample_auth phone nobody).1

phone_refreshed :
    (refresh second_call "t1" with_phone).0
    ≡ ok (record { access_token = "d"; refresh_token = "t2" })
unfolding register ensure_device create_new created new_refresh_token refresh_token_hash
    save_refresh_token get_device_by_id create_device touch_device lookup insert erase refresh
    refresh_known refresh_for delete_refresh_token get_device_by_refresh_token
phone_refreshed = refl

refresh_once_example :
    refresh (another_call second_call 9 "t3") "t1" (refresh second_call "t1" with_phone).1
    ≡ (err Error.invalid_refresh_token, (refresh second_call "t1" with_phone).1)
refresh_once_example =
    refresh_once second_call "t1" "t3" 9 with_phone
      (record { access_token = "d"; refresh_token = "t2" }) phone_refreshed refl
