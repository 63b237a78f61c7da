-- ===== src/Config/Required.antt =====
-- Which environments give a configuration.
use telebook_server.Prelude.{String, ◌≡◌, ◌&&◌, not, Option, ◌==◌, if◌then◌else◌, inl, inr, arith}
use telebook_server.Prelude.Int.{ℤ}
use telebook_server.Config.{
  database_url_required, sync_secret_required, jwt_secret_required, load, from_environment,
}

-- A configuration is loaded exactly where the address of the database and both secrets are set.
pub load_complete :
    (env : String → String) (parse_duration : String → Option ℤ)
    → load env parse_duration ≡ (
        if not (env "DATABASE_URL" == "")
          && not (env "SYNC_SECRET" == "")
          && not (env "JWT_SECRET" == "")
        then inr (from_environment env parse_duration)
        else inl (
            if env "DATABASE_URL" == ""
            then database_url_required
            else if env "SYNC_SECRET" == ""
            then sync_secret_required
            else jwt_secret_required))
unfolding load
load_complete env parse_duration = ground arith
