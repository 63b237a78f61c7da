-- ===== src/Api/Router/Protection.antt =====
-- Which routes need an access token.
use telebook_server.Prelude.{Bool, true, false, not, ◌≡◌, refl, [], ◌∷◌, map, keep}
use telebook_server.Api.Router.{
  ping, register, refresh, group, file_routes, upload_routes, new_router,
}

-- Whatever services are there, exactly three handlers are reached without an access token: the health
-- check, the registration and the refresh.
pub open_endpoints :
    (files uploads : Bool)
    → map (λ r. r.endpoint) (keep (λ r. not r.has_auth) (new_router files uploads))
      ≡ ping ∷ register ∷ refresh ∷ []
unfolding new_router group file_routes upload_routes keep
open_endpoints true true = refl
open_endpoints true false = refl
open_endpoints false true = refl
open_endpoints false false = refl
