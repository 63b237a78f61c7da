-- ===== src/Model/Device.antt =====
-- internal/model/device.go, and the requests and answers of internal/service/auth_service.go.
use telebook_server.Prelude.{String}
use telebook_server.Model.Book.{Time}

pub record Device : Type 0 where
  pub id : String
  pub name : String
  pub platform : String
  pub key_hash : String
  pub created_at : Time
  pub last_seen_at : Time

pub record RegisterRequest : Type 0 where
  pub connection_key : String
  pub device_id : String
  pub device_name : String
  pub platform : String

pub record RegisterResponse : Type 0 where
  pub access_token : String
  pub refresh_token : String
  pub device_id : String

pub record RefreshResponse : Type 0 where
  pub access_token : String
  pub refresh_token : String
