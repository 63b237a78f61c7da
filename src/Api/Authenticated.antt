-- ===== src/Api/Authenticated.antt =====
-- Who gets through the middleware.
use Prim.Native.String.{len, slice}
use telebook_server.Prelude.{
  eq_iff, arith, subst, String, ◌≡◌, refl, ap, true, Option, none, some, ◌==◌, Bool-cases,
  Option-cases, inl, inr, lookup, false, [], ◌∷◌,
}
use telebook_server.Service.Auth.{AuthState}
use telebook_server.Service.Auth.Registration.{
  is_registered, get_device_by_id-some, get_device_by_id-none,
}
use telebook_server.Api.Reply.{Reply, success, failure}
use telebook_server.Model.Book.{Time}
use telebook_server.Service.Jwt.{
  JwtLibrary, JwtService, Claims, hs256, token_issuer, key_for, valid_claims, parse,
}
use telebook_server.Api.Auth.{auth_middleware, claimed_device, for_device, on_auth}

-- The device of the request, or a default.
abbrev device_or : String → Reply String → String
device_or d (success id) = id
device_or d (failure status code) = d

for_device-registered :
    (o : Option String) (s : AuthState) (id : String)
    → (for_device o s).0 ≡ success id
    → (o ≡ some id) × (is_registered id s ≡ true) × ((for_device o s).1 ≡ s)
unfolding for_device on_auth
for_device-registered none s id h = cc h
for_device-registered (some k) s id h = elim (Option-cases (lookup k s.devices.devices)) [
  | inl e ↦ cc (rw (get_device_by_id-none k s.devices e) at h)
  | inr (d, e) ↦
      let same = ap (device_or "") (rw (get_device_by_id-some k s.devices d e) at h) in
      (
        ap some same,
        subst (λ x. is_registered x s ≡ true) same (rw e refl),
        rw (get_device_by_id-some k s.devices d e) refl,
      )
]

-- The library takes the token as valid, signed by HS256 with the server's key and with its issuer,
-- and it names the device.
abbrev pub Names : JwtLibrary → JwtService → Time → String → String → Type 0
Names lib j now token id =
    (c : Claims) × (lib.parse_with_claims token (key_for lib j) token_issuer (hs256 ∷ []) now
      ≡ some (c, true))
    × (c.device_id ≡ id)

claimed_device-Names :
    (lib : JwtLibrary) (j : JwtService) (now : Time) (token id : String)
    → claimed_device (parse lib j token now) ≡ some id
    → Names lib j now token id
unfolding claimed_device parse valid_claims
claimed_device-Names lib j now token id h =
    elim (Option-cases
      (lib.parse_with_claims token (key_for lib j) token_issuer (hs256 ∷ []) now)) [
        | inl e ↦ cc (rw e at h)
        | inr ((c, true), e) ↦ (c, e, cc (rw e at h))
        | inr ((c, false), e) ↦ cc (rw e at h)
      ]

-- Only a device that is registered gets through, after its header began with Bearer and the rest
-- of it was a token that the library takes as valid at this time, signed by HS256 with the
-- server's key and with the server's issuer, and that names this device; the check changes nothing.
pub only_registered_pass :
    (lib : JwtLibrary) (j : JwtService) (now : Time) (header : String) (s : AuthState) (id : String)
    → (auth_middleware lib j now header s).0 ≡ success id
    → (slice header 0 7 ≡ "Bearer ")
      × Names lib j now (slice header 7 (len header)) id
      × (is_registered id s ≡ true)
      × ((auth_middleware lib j now header s).1 ≡ s)
unfolding auth_middleware
only_registered_pass lib j now header s id h = elim (Bool-cases (slice header 0 7 == "Bearer ")) [
  | inl e ↦
      let token = slice header 7 (len header) in
      let (p, r, c) =
        for_device-registered (claimed_device (parse lib j token now)) s id (rw e at h) in
      (
        ground (arith, eq_iff (slice header 0 7) "Bearer "),
        claimed_device-Names lib j now token id p,
        r,
        rw e c,
      )
  | inr e ↦ cc (rw e at h)
]
