-- ===== src/Service/Jwt/Validity.antt =====
-- How long an access token is accepted.
use telebook_server.Prelude.{◌+◌, ◌<◌, String, ◌≡◌, refl, ap, some}
use telebook_server.Model.Errors.{ok}
use telebook_server.Model.Book.{Time}
use telebook_server.Service.Jwt.{
  JwtLibrary, JwtService, ReadsSigned, hs256, claims_of, issue, parse, key_for, valid_claims,
}

-- A token that `Issue` signed gives its claims in `Parse` as long as its time, rounded, has not come.
pub parse-issue :
    (lib : JwtLibrary) (v : JwtService) (id name token : String) (issued now : Time)
    → ReadsSigned lib
    → issue lib v id name issued ≡ ok token
    → now < lib.new_numeric_date (issued + v.ttl)
    → parse lib v token now ≡ some (claims_of lib v id name issued)
unfolding parse issue claims_of key_for valid_claims
parse-issue lib v id name token issued now laws signed early = ap (valid_claims lib v) (
    laws.reads hs256 (claims_of lib v id name issued) v.secret token (key_for lib v) now signed refl
      early)
