-- ===== src/Api/Auth.antt =====
-- internal/api/handlers.go: the handlers of the authentication, and internal/api/middleware.go.
use Prim.Native.String.{len, slice}
use telebook_server.Prelude.{String, Option, none, some, ◌==◌, if◌then◌else◌}
use telebook_server.Model.Errors.{Error}
use telebook_server.Model.Device.{Device, RegisterRequest, RegisterResponse, RefreshResponse}
use telebook_server.Model.Book.{Time}
use telebook_server.Service.Jwt.{JwtLibrary, JwtService, Claims, parse}
use telebook_server.Store.Devices.{get_device_by_id}
use telebook_server.Service.Auth.{AuthService, AuthState, register, refresh, in_devices}
use telebook_server.Model.Action.{pure, ◌>>◌}
use telebook_server.Api.Reply.{Reply, failure, Handler, validation_error, respond}

unfoldable pub on_register : {A : Type 0} → Error → Reply A
on_register Error.invalid_key = failure 401 "invalid_connection_key"
on_register Error.device_conflict = failure 409 "device_conflict"
on_register _ = failure 500 "internal"

unfoldable pub on_refresh : {A : Type 0} → Error → Reply A
on_refresh Error.invalid_refresh_token = failure 401 "invalid_refresh_token"
on_refresh _ = failure 500 "internal"

unfoldable pub on_me : {A : Type 0} → Error → Reply A
on_me Error.device_not_found = failure 404 "not_found"
on_me _ = failure 500 "internal"

unfoldable pub on_auth : {A : Type 0} → Error → Reply A
on_auth Error.device_not_found = failure 401 "unauthorized"
on_auth _ = failure 500 "internal"

unfoldable pub register_handler :
    AuthService → Option RegisterRequest → Handler AuthState RegisterResponse
register_handler v none = validation_error
register_handler v (some req) = respond on_register (register v req)

unfoldable pub refresh_handler : AuthService → Option String → Handler AuthState RefreshResponse
refresh_handler v none = validation_error
refresh_handler v (some token) = respond on_refresh (refresh v token)

unfoldable pub me_handler : String → Handler AuthState Device
me_handler device_id = respond on_me (in_devices (get_device_by_id device_id))

unfoldable pub for_device : Option String → Handler AuthState String
for_device none = λ s. (failure 401 "unauthorized", s)
for_device (some device_id) =
    respond on_auth (in_devices (get_device_by_id device_id) >> pure device_id)

-- `claims.DeviceID`.
unfoldable pub claimed_device : Option Claims → Option String
claimed_device none = none
claimed_device (some claims) = some claims.device_id

-- The device that the requests go on with, at a reading of the clock.
unfoldable pub auth_middleware : JwtLibrary → JwtService → Time → String → Handler AuthState String
unfolding claimed_device
auth_middleware lib j now header =
    if slice header 0 7 == "Bearer "
    then for_device (claimed_device (parse lib j (slice header 7 (len header)) now))
    else λ s. (failure 401 "unauthorized", s)
