-- ===== src/Service/Jwt.antt =====
-- internal/service/jwt_service.go. The JWT library is an argument: signing, parsing with the test of
-- signature, issuer, method and expiry, and the rounding of a time to the seconds of a token.
pub mod Validity
use telebook_server.Prelude.{
  ℕ, ◌+◌, ◌<◌, String, ◌≡◌, Bool, true, false, Option, none, some, List, [], ◌∷◌,
}
use telebook_server.Model.Errors.{Result, ok}
use telebook_server.Model.Book.{Time}

pub data SigningMethod : Type 0 where
  hs256 hs384 hs512 other_method : SigningMethod

-- With the registered claims of the library.
pub record Claims : Type 0 where
  pub device_id : String
  pub device_name : String
  pub issuer : String
  pub issued_at : Time
  pub expires_at : Time

pub record JwtLibrary : Type 0 where
  pub new_numeric_date : Time → Time
  pub signed_string : SigningMethod → Claims → String → Result String
  -- the claims, and whether the token is valid
  pub parse_with_claims :
      String
      → (SigningMethod → Option String)
      → String
      → List SigningMethod
      → Time
      → Option (Claims × Bool)

pub record JwtService : Type 0 where
  pub secret : String
  pub ttl : ℕ

abbrev pub token_issuer : String
token_issuer = "TelebookServer"

module _ (lib : JwtLibrary) (v : JwtService) where
  unfoldable pub claims_of : String → String → Time → Claims
  claims_of device_id device_name now = record {
    device_id = device_id;
    device_name = device_name;
    issuer = token_issuer;
    issued_at = lib.new_numeric_date now;
    expires_at = lib.new_numeric_date (now + v.ttl);
  }

  unfoldable pub issue : String → String → Time → Result String
  unfolding claims_of
  issue device_id device_name now =
      lib.signed_string hs256 (claims_of device_id device_name now) v.secret

  -- Only a method of HMAC has the key.
  unfoldable pub key_for : SigningMethod → Option String
  key_for hs256 = some v.secret
  key_for hs384 = some v.secret
  key_for hs512 = some v.secret
  key_for other_method = none

  unfoldable pub valid_claims : Option (Claims × Bool) → Option Claims
  valid_claims none = none
  valid_claims (some (claims, true)) = some claims
  valid_claims (some (claims, false)) = none

  unfoldable pub parse : String → Time → Option Claims
  unfolding key_for valid_claims
  parse token now = valid_claims (lib.parse_with_claims token key_for token_issuer (hs256 ∷ []) now)

-- The library reads back what it signed with the key that it is given, while it has not expired.
pub record ReadsSigned (lib : JwtLibrary) : Type 0 where
  pub reads :
      (method : SigningMethod) (claims : Claims) (key token : String)
      (key_of : SigningMethod → Option String) (now : Time)
      → lib.signed_string method claims key ≡ ok token
      → key_of method ≡ some key
      → now < claims.expires_at
      → lib.parse_with_claims token key_of claims.issuer (method ∷ []) now ≡ some (claims, true)
