-- ===== src/Prelude/Numbering.antt =====
-- Lists whose elements carry consecutive numbers, as a sequence of a database gives them.
use Prim.Native.Nat.{ℕ, suc, ◌+◌, ◌<◌, ◌≤◌}
use mathlib.Core.Path.{◌≡◌}
use mathlib.Core.List.{List, [], ◌∷◌, ◌++◌}
use native.Mathlib.Omega.{arith}
use telebook_server.Prelude.Lists.{length, All}

module _ {A : Type 0} (number : A → ℕ) where
  -- The numbers run from `lo + 1` to `hi`, one by one.
  abbrev pub Numbered : ℕ → List A → ℕ → Type 0
  Numbered lo [] hi = hi ≡ lo
  Numbered lo (x ∷ xs) hi = (number x ≡ suc lo) × Numbered (suc lo) xs hi

  pub Numbered-append :
      (lo : ℕ) (xs : List A) (hi : ℕ) (x : A)
      → Numbered lo xs hi
      → number x ≡ suc hi
      → Numbered lo (xs ++ x ∷ []) (suc hi)
  Numbered-append lo [] hi x h e = (omega arith, omega arith)
  Numbered-append lo (y ∷ xs) hi x h e = (h.0, Numbered-append (suc lo) xs hi x h.1 e)

  pub Numbered-le : (lo : ℕ) (xs : List A) (hi : ℕ) → Numbered lo xs hi → lo + length xs ≡ hi
  Numbered-le lo [] hi h = omega arith
  Numbered-le lo (x ∷ xs) hi h = omega (arith, Numbered-le (suc lo) xs hi h.1)

  pub Numbered-above :
      (lo : ℕ) (xs : List A) (hi : ℕ) → Numbered lo xs hi → All (λ x. lo < number x) xs
  Numbered-above lo [] hi h = tt
  Numbered-above lo (x ∷ xs) hi h = (omega arith, weaken xs (Numbered-above (suc lo) xs hi h.1))
    where
      weaken : (ys : List A) → All (λ y. suc lo < number y) ys → All (λ y. lo < number y) ys
      weaken [] k = tt
      weaken (y ∷ ys) k = (omega arith, weaken ys k.1)

module _ {ℓ} {A : Type ℓ} where
  -- The numbers of the elements rise above `lo`, and the last one is at most `hi`: a sequence that
  -- may skip values.
  abbrev pub Ascending : (A → ℕ) → ℕ → List A → ℕ → Type 0
  Ascending f lo [] hi = lo ≤ hi
  Ascending f lo (x ∷ xs) hi = (lo < f x) × Ascending f (f x) xs hi

  pub Ascending-raise :
      (f : A → ℕ) (lo hi hi' : ℕ) (xs : List A)
      → hi ≤ hi'
      → Ascending f lo xs hi
      → Ascending f lo xs hi'
  Ascending-raise f lo hi hi' [] p h = omega arith
  Ascending-raise f lo hi hi' (x ∷ xs) p h = (h.0, Ascending-raise f (f x) hi hi' xs p h.1)

  pub Ascending-append :
      (f : A → ℕ) (lo hi : ℕ) (xs : List A) (y : A)
      → hi < f y
      → Ascending f lo xs hi
      → Ascending f lo (xs ++ y ∷ []) (f y)
  Ascending-append f lo hi [] y p h = (omega arith, omega arith)
  Ascending-append f lo hi (x ∷ xs) y p h = (h.0, Ascending-append f (f x) hi xs y p h.1)
