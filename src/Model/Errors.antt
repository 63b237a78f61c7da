-- ===== src/Model/Errors.antt =====
-- The error values of internal/store and internal/service, and a Go result: a value or an error.
use telebook_server.Prelude.{ap, ◌≡◌, refl, ◌⊎◌, inl, inr}

pub data Error : Type 0 where
  -- a document that does not parse
  bad_json : Error
  history_not_found conflict_not_found conflict_resolved : Error
  invalid_strategy no_local_payload payload_required : Error
  -- pgx.ErrNoRows, and any other failure of the database
  no_rows database_error : Error
  upload_order_lost upload_not_found : Error
  -- object storage and files
  object_not_found unknown_upload missing_part size_mismatch storage_error read_error : Error
  invalid_size invalid_part invalid_params file_exists upload_not_complete : Error
  -- authentication
  invalid_key device_conflict invalid_refresh_token device_not_found token_not_found : Error
  hash_failed sign_failed invalid_token : Error

pub data Result {ℓ} (A : Type ℓ) : Type ℓ where
  ok : A → Result A
  err : Error → Result A

abbrev pub map_ok {ℓ κ} : {A : Type ℓ} {B : Type κ} → (A → B) → Result A → Result B
map_ok f (ok a) = ok (f a)
map_ok f (err e) = err e

-- `P` holds of the value, if there is one.
abbrev pub Holds {ℓ κ} : {A : Type ℓ} → (A → Type κ) → Result A → Type κ
Holds P (ok a) = P a
Holds P (err e) = Unit

pub Holds-map_ok {ℓ κ μ} :
    {A : Type ℓ} {B : Type κ} (P : A → Type μ) (Q : B → Type μ) (f : A → B) (r : Result A)
    → ((a : A) → P a → Q (f a))
    → Holds P r
    → Holds Q (map_ok f r)
Holds-map_ok P Q f (ok a) g h = g a h
Holds-map_ok P Q f (err e) g h = tt

pub Result-cases {ℓ} :
    {A : Type ℓ} (r : Result A) → ((e : Error) × (r ≡ err e)) ⊎ ((a : A) × (r ≡ ok a))
Result-cases (ok a) = inr (a, refl)
Result-cases (err e) = inl (e, refl)

-- The value, or a default.
abbrev pub value_or {ℓ} : {A : Type ℓ} → A → Result A → A
value_or d (ok a) = a
value_or d (err e) = d

pub ok_inj {ℓ} : {A : Type ℓ} (a b : A) → ok a ≡ ok b → a ≡ b
ok_inj a b h = ap (value_or a) h
