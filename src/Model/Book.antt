-- ===== src/Model/Book.antt =====
-- internal/model/sync.go, the book part: payloads, snapshots and history, and the functions of
-- encoding/json that the program calls on them.
use telebook_server.Prelude.{ℕ, String, Bool, Option, none, some, List, []}
use telebook_server.Prelude.Int.{ℤ, pos}

-- A reading of the clock, `time.Time`.
abbrev pub Time : Type 0
Time = ℕ

-- `json.RawMessage` over the documents `Raw`; `none` is the nil message, which has length 0.
abbrev pub RawMessage : Type 0 → Type 0
RawMessage Raw = Option Raw

pub record BookFileMeta : Type 0 where
  pub rel_path : String
  pub hash : String
  pub size : ℤ

-- A Go slice: `none` is nil.
abbrev pub Slice : Type 0 → Type 0
Slice A = Option (List A)

abbrev pub elements : {A : Type 0} → Slice A → List A
elements none = []
elements (some xs) = xs

pub record BookPayload : Type 0 where
  pub name : String
  pub current_page : ℤ
  pub cover_hash : String
  pub files : Slice BookFileMeta

-- The zero value of the struct.
abbrev pub zero_payload : BookPayload
zero_payload = record { name = ""; current_page = pos 0; cover_hash = ""; files = none }

pub record BookSnapshotItem (Raw : Type 0) : Type 0 where
  pub uuid : String
  pub name : String
  pub current_page : ℤ
  pub cover_hash : String
  pub files : RawMessage Raw
  pub revision : ℕ

pub record BookHistory (Raw : Type 0) : Type 0 where
  pub id : ℕ
  pub op_type : String
  pub tag : String
  pub payload : RawMessage Raw
  pub created_at : Time

pub record BookRestoreResult : Type 0 where
  pub restored : ℕ
  pub revision : ℕ

-- The calls of encoding/json. A read into a struct gives the struct as far as it was filled, and
-- whether it went without an error; a write of these types cannot fail.
pub record Codec (Raw : Type 0) : Type 0 where
  -- the document is the text null
  pub is_null : Raw → Bool
  -- the document []
  pub empty_array : Raw
  pub read_payload : Raw → BookPayload × Bool
  pub write_payload : BookPayload → Raw
  pub read_files : Raw → Option (Slice BookFileMeta)
  pub write_files : Slice BookFileMeta → Raw
  pub read_items : Raw → Option (List (BookSnapshotItem Raw))
  pub write_items : List (BookSnapshotItem Raw) → Raw
  -- the object with name, current_page, cover_hash (`none` is null) and files
  pub write_book : String → ℤ → Option String → Raw → Raw
