-- ===== src/Service/Auth.antt =====
-- internal/service/auth_service.go over the table of devices and the tokens in memory. bcrypt, the
-- signing of an access token, SHA-256 and the random source are arguments.
pub mod Rotation
pub mod Registration
pub mod Access
use telebook_server.Prelude.{ℕ, String, Bool, not, ◌==◌, if◌then◌else◌}
use telebook_server.Model.Errors.{Error, Result, ok, err}
use telebook_server.Model.Action.{Action, pure, raise, lift, attempt, continue, ◌>>=◌, ◌>>◌}
use telebook_server.Model.Book.{Time}
use telebook_server.Model.Device.{Device, RegisterRequest, RegisterResponse, RefreshResponse}
use telebook_server.Store.Tokens.{
  MemoryTokenStore, save_refresh_token, get_device_by_refresh_token, delete_refresh_token,
}
use telebook_server.Store.Devices.{DeviceTable, create_device, get_device_by_id, touch_device}

pub record AuthState : Type 0 where
  pub devices : DeviceTable
  pub tokens : MemoryTokenStore

-- The settings, and what one call meets: the clock, and the random token that it draws.
pub record AuthService : Type 0 where
  pub sync_secret : String
  pub refresh_ttl : ℕ
  pub hash_password : String → Result String
  pub issue : String → String → Time → Result String
  pub sha256 : String → String
  pub now : Time
  pub random_token : String

abbrev pub in_devices : {A : Type 0} → Action DeviceTable A → Action AuthState A
in_devices m s = let (r, t) = m s.devices in (r, record s { devices = t })

abbrev pub in_tokens : {A : Type 0} → Action MemoryTokenStore A → Action AuthState A
in_tokens m s = let (r, t) = m s.tokens in (r, record s { tokens = t })

module _ (v : AuthService) where
  unfoldable pub refresh_token_hash : String → String
  refresh_token_hash token = v.sha256 token

  -- The token, and its hash.
  unfoldable pub new_refresh_token : String × String
  unfolding refresh_token_hash
  new_refresh_token = (v.random_token, refresh_token_hash v.random_token)

  -- A failure of the INSERT is reported as a conflict, whatever it was.
  unfoldable pub created : Result (Unit {0}) → Action AuthState (Unit {0})
  created (ok u) = pure u
  created (err e) = raise Error.device_conflict

  unfoldable pub create_new : RegisterRequest → Action AuthState (Unit {0})
  create_new req = do
    key_hash ← lift (v.hash_password req.connection_key)
    result ← attempt (
        in_devices (
          create_device
            (record {
              id = req.device_id;
              name = req.device_name;
              platform = req.platform;
              key_hash = key_hash;
              created_at = v.now;
              last_seen_at = v.now;
            })
            v.now))
    created result

  -- The switch of `Register`.
  unfoldable pub ensure_device : RegisterRequest → Result Device → Action AuthState (Unit {0})
  ensure_device req (ok d) = pure tt
  ensure_device req (err Error.device_not_found) = create_new req
  ensure_device req (err e) = raise e

  unfoldable pub register : RegisterRequest → Action AuthState RegisterResponse
  register req = if not (req.connection_key == v.sync_secret) then raise Error.invalid_key else do
    found ← attempt (in_devices (get_device_by_id req.device_id))
    ensure_device req found
    access ← lift (v.issue req.device_id req.device_name v.now)
    in_tokens (save_refresh_token (new_refresh_token.1) req.device_id v.refresh_ttl v.now)
    attempt (in_devices (touch_device req.device_id v.now))
    pure (record {
      access_token = access;
      refresh_token = new_refresh_token.0;
      device_id = req.device_id;
    })

  -- `Refresh` from the device of the token on.
  unfoldable pub refresh_for : String → Result Device → Action AuthState RefreshResponse
  refresh_for hash (err e) =
      attempt (in_tokens (delete_refresh_token hash)) >> raise Error.invalid_refresh_token
  refresh_for hash (ok device) = do
    access ← lift (v.issue device.id device.name v.now)
    in_tokens (delete_refresh_token hash)
    in_tokens (save_refresh_token (new_refresh_token.1) device.id v.refresh_ttl v.now)
    attempt (in_devices (touch_device device.id v.now))
    pure (record { access_token = access; refresh_token = new_refresh_token.0 })

  unfoldable pub refresh_known : String → Result String → Action AuthState RefreshResponse
  refresh_known hash (err e) = raise Error.invalid_refresh_token
  refresh_known hash (ok device_id) = do
    device ← attempt (in_devices (get_device_by_id device_id))
    refresh_for hash device

  unfoldable pub refresh : String → Action AuthState RefreshResponse
  refresh token = do
    found ← attempt (in_tokens (get_device_by_refresh_token (refresh_token_hash token) v.now))
    refresh_known (refresh_token_hash token) found
