-- ===== src/Api/Reply.antt =====
-- internal/api/response.go: an answer is a body with status 200, or a status with an error code; the
-- message beside the code is a fixed text for people, and not modelled.
use telebook_server.Prelude.{ℕ, String}
use telebook_server.Model.Errors.{Error, Result, ok, err}
use telebook_server.Model.Action.{Action}

pub data Reply (A : Type 0) : Type 0 where
  success : A → Reply A
  failure : ℕ → String → Reply A

abbrev pub status_of : {A : Type 0} → Reply A → ℕ
status_of (success a) = 200
status_of (failure status code) = status

-- What a handler answers, which is never an error of its own.
abbrev pub Handler : Type 0 → Type 0 → Type 0
Handler S A = S → Reply A × S

abbrev pub reply_of : {A : Type 0} → (Error → Reply A) → Result A → Reply A
reply_of on_error (ok a) = success a
reply_of on_error (err e) = on_error e

module _ {S A : Type 0} where
  abbrev pub validation_error : Handler S A
  validation_error s = (failure 422 "validation_error", s)

  -- The answer to a call of a service, by its error.
  abbrev pub respond : (Error → Reply A) → Action S A → Handler S A
  respond on_error m s = let (r, t) = m s in (reply_of on_error r, t)

abbrev pub internal : {A : Type 0} → Error → Reply A
internal e = failure 500 "internal"
