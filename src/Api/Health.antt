-- ===== src/Api/Health.antt =====
-- internal/api/handlers.go: `PingHandler`, and internal/api/router.go: what stands in for the handlers
-- of a service that is not there.
use telebook_server.Prelude.{String}
use telebook_server.Config.{Config}
use telebook_server.Api.Reply.{success, failure, Handler}

pub record PingReply : Type 0 where
  pub status : String
  pub server_time : String
  pub version : String

-- The clock is read and printed outside.
unfoldable pub ping_handler : {S : Type 0} → Config → String → Handler S PingReply
ping_handler cfg server_time s =
    (success (record { status = "ok"; server_time = server_time; version = cfg.version }), s)

unfoldable pub files_not_configured_handler : {S A : Type 0} → Handler S A
files_not_configured_handler s = (failure 503 "files_not_configured", s)
