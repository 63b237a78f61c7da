-- ===== src/Prelude/Fields.antt =====
-- Texts that are put together from fields and separators: what the whole says of the fields.
use Prim.Native.Nat.{ℕ, zero, suc, ◌+◌, ◌*◌, ◌-◌, ◌/◌, ◌%◌, ◌<◌}
use Prim.Native.Char.{Char, code}
use Prim.Native.String.append
use Prim.Native.String.{String, [], ◌∷◌, ◌++◌ as ◌<>◌}
use mathlib.Core.Path.{◌≡◌, refl, sym, ◌∙◌, ap, subst}
use mathlib.Core.Bool.{Bool, true, false, ◌&&◌, not}
use native.Mathlib.Omega.{arith}
use mathlib.Core.Logic.{inl, inr}
use telebook_server.Prelude.Tests.{eqb, ltb, ltb→lt, Bool-cases, if◌then◌else◌}
use telebook_server.Prelude.Decimal.{digit, decimal_within, decimal}

-- The character with the number `n` is not in the text.
unfoldable pub free : ℕ → String → Bool
free n [] = true
free n (c ∷ s) = not (eqb n (code c)) && free n s

cons_inj : (c d : Char) (s t : String) → c ∷ s ≡ d ∷ t → (c ≡ d) × (s ≡ t)
cons_inj c d s t h = (cc h, cc h)

free-append : (n : ℕ) (s t : String) → free n (s <> t) ≡ (free n s && free n t)
unfolding free
free-append n [] t = rw (append.nil t) refl
free-append n (c ∷ s) t = rw (append.cons c s t) (ground (arith, free-append n s t))

-- A text up to the first separator, and the rest.
pub split_unique :
    (c : Char) (s t x y : String)
    → free (code c) s ≡ true
    → free (code c) t ≡ true
    → s <> (c ∷ x) ≡ t <> (c ∷ y)
    → (s ≡ t) × (x ≡ y)
unfolding free
split_unique c [] [] x y f g h =
    (refl, (cons_inj c c x y (sym (append.nil (c ∷ x)) ∙ h ∙ append.nil (c ∷ y))).1)
split_unique c [] (d ∷ t) x y f g h =
    absurd (
      clash (ap code (cons_inj c d _ _ (sym (append.nil (c ∷ x)) ∙ h ∙ append.cons d t (c ∷ y))).0))
  where
    clash : code c ≡ code d → ⊥
    clash e = ground arith
split_unique c (d ∷ s) [] x y f g h =
    absurd (
      clash (ap code (cons_inj d c _ _ (sym (append.cons d s (c ∷ x)) ∙ h ∙ append.nil (c ∷ y))).0))
  where
    clash : code d ≡ code c → ⊥
    clash e = ground arith
split_unique c (d ∷ s) (e ∷ t) x y f g h =
    let heads = cons_inj d e _ _ (sym (append.cons d s (c ∷ x)) ∙ h ∙ append.cons e t (c ∷ y)) in
    let rest = split_unique c s t x y (ground arith) (ground arith) heads.1 in
    (cc (heads.0, rest.0), rest.1)

pub append_nonempty : (c : Char) (s x : String) → s <> (c ∷ x) ≡ [] → ⊥
append_nonempty c [] x h = cc (sym (append.nil (c ∷ x)) ∙ h)
append_nonempty c (d ∷ s) x h = cc (sym (append.cons d s (c ∷ x)) ∙ h)

pub append_assoc : (s t u : String) → (s <> t) <> u ≡ s <> (t <> u)
append_assoc [] t u = rw (append.nil t, append.nil (t <> u)) refl
append_assoc (c ∷ s) t u =
    rw (append.cons c s t, append.cons c (s <> t) u, append.cons c s (t <> u), append_assoc s t u)
      refl

branch :
    (P : ℕ → String → Type 0) (n k : ℕ) (s t : String)
    → P k s
    → (eqb n k ≡ false → P n t)
    → P n (if eqb n k then s else t)
branch P n k s t p q = elim (Bool-cases (eqb n k)) [
  | inl e ↦ rw e (subst (λ m. P m s) (same e) p)
  | inr e ↦ rw e (q e)
]
  where
    same : eqb n k ≡ true → k ≡ n
    same e = ground arith

-- What holds of the ten digits holds of the digit of a number below 10.
digit_rule :
    (P : ℕ → String → Type 0)
    → P 0 "0"
    → P 1 "1"
    → P 2 "2"
    → P 3 "3"
    → P 4 "4"
    → P 5 "5"
    → P 6 "6"
    → P 7 "7"
    → P 8 "8"
    → P 9 "9"
    → (n : ℕ) → n < 10
    → P n (digit n)
unfolding digit
digit_rule P a b c d e f g h i j n l = branch P n 0 "0" _ a λ a'. branch P n 1 "1" _ b λ b'.
    branch P n 2 "2" _ c λ c'. branch P n 3 "3" _ d λ d'. branch P n 4 "4" _ e λ e'.
      branch P n 5 "5" _ f λ f'. branch P n 6 "6" _ g λ g'. branch P n 7 "7" _ h λ h'.
        branch P n 8 "8" "9" i λ i'. let nine : 9 ≡ n = ground arith in subst (λ m. P m "9") nine j

-- The number that a text of digits shows, after the digits of `acc`.
value : String → ℕ → ℕ
value [] acc = acc
value (c ∷ s) acc = value s (acc * 10 + (code c - 48))

value-append : (s t : String) (acc : ℕ) → value (s <> t) acc ≡ value t (value s acc)
unfolding value
value-append [] t acc = rw (append.nil t) refl
value-append (c ∷ s) t acc = rw (append.cons c s t) (value-append s t (acc * 10 + (code c - 48)))

value-digit : (acc n : ℕ) → n < 10 → value (digit n) acc ≡ acc * 10 + n
unfolding value
value-digit acc n h =
    digit_rule (λ n s. value s acc ≡ acc * 10 + n) refl refl refl refl refl refl refl refl refl refl
      n h

value-decimal_within : (fuel n : ℕ) → n < fuel → value (decimal_within fuel n) 0 ≡ n
unfolding decimal_within
value-decimal_within zero n h = absurd (omega arith)
value-decimal_within (suc fuel) n h = elim (Bool-cases (ltb n 10)) [
  | inl e ↦ rw e (omega (arith, value-digit 0 n (ltb→lt n 10 e)))
  | inr e ↦
      rw
        (
          e,
          value-append (decimal_within fuel (n / 10)) (digit (n % 10)) 0,
          value-decimal_within fuel (n / 10) (smaller e),
        )
        (omega (arith, value-digit (n / 10) (n % 10) (omega arith)))
]
  where
    smaller : ltb n 10 ≡ false → n / 10 < fuel
    smaller e = ground arith

pub decimal_inj : (m n : ℕ) → decimal m ≡ decimal n → m ≡ n
unfolding decimal
decimal_inj m n h =
    sym (value-decimal_within (suc m) m (omega arith))
    ∙ ap (λ s. value s 0) h
    ∙ value-decimal_within (suc n) n (omega arith)

-- The digits have the numbers 48 to 57.
free-digit : (c n : ℕ) → c < 48 → n < 10 → free c (digit n) ≡ true
unfolding free
free-digit c n h l =
    digit_rule (λ n s. free c s ≡ true) (ground arith) (ground arith) (ground arith) (ground arith)
      (ground arith) (ground arith) (ground arith) (ground arith) (ground arith) (ground arith) n l

free-decimal_within : (c fuel n : ℕ) → c < 48 → free c (decimal_within fuel n) ≡ true
unfolding decimal_within
free-decimal_within c zero n h = unfold free in refl
free-decimal_within c (suc fuel) n h = elim (Bool-cases (ltb n 10)) [
  | inl e ↦ rw e (free-digit c n h (ltb→lt n 10 e))
  | inr e ↦
      rw
        (
          e,
          free-append c (decimal_within fuel (n / 10)) (digit (n % 10)),
          free-decimal_within c fuel (n / 10) h,
          free-digit c (n % 10) h (omega arith),
        )
        refl
]

pub free-decimal : (c n : ℕ) → c < 48 → free c (decimal n) ≡ true
unfolding decimal
free-decimal c n h = free-decimal_within c (suc n) n h
