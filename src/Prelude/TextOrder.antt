-- ===== src/Prelude/TextOrder.antt =====
-- The order of texts by their characters, which is Go's `<` on strings in UTF-8: the comparison is
-- mirrored when its arguments are exchanged, and `before` is transitive.
use Prim.Native.Nat.{ℕ, Ordering, compare as compare_ℕ}
use Prim.Native.Char.{code}
use Prim.Native.String.compare
use Prim.Native.String.{String, [], ◌∷◌, compare, then}
use mathlib.Core.Path.{◌≡◌, refl}
use mathlib.Core.Bool.{Bool, true, false, not}
use text.Mathlib.Text.{◌==◌}
use native.Mathlib.Omega.{arith}

abbrev is_before : Ordering → Bool
is_before Ordering.lt = true
is_before Ordering.eq = false
is_before Ordering.gt = false

-- `s < t`.
unfoldable pub before : String → String → Bool
before s t = is_before (compare s t)

abbrev flip : Ordering → Ordering
flip Ordering.lt = Ordering.gt
flip Ordering.eq = Ordering.eq
flip Ordering.gt = Ordering.lt

flip-then :
    (a b : ℕ) (o p : Ordering) → p ≡ flip o → then (compare_ℕ b a) p ≡ flip (then (compare_ℕ a b) o)
flip-then a b o p h = rw h (ground arith)

compare-flip : (s t : String) → compare t s ≡ flip (compare s t)
compare-flip [] [] = rw compare.nil-nil refl
compare-flip [] (d ∷ t) = rw (compare.nil-cons d t, compare.cons-nil d t) refl
compare-flip (c ∷ s) [] = rw (compare.nil-cons c s, compare.cons-nil c s) refl
compare-flip (c ∷ s) (d ∷ t) =
    rw (compare.cons-cons c d s t, compare.cons-cons d c t s)
      (flip-then (code c) (code d) (compare s t) (compare t s) (compare-flip s t))

lt-then :
    (a b c : ℕ) (o p q : Ordering)
    → (o ≡ Ordering.lt → p ≡ Ordering.lt → q ≡ Ordering.lt)
    → then (compare_ℕ a b) o ≡ Ordering.lt
    → then (compare_ℕ b c) p ≡ Ordering.lt
    → then (compare_ℕ a c) q ≡ Ordering.lt
lt-then a b c o p q h k l = ground arith

compare_trans :
    (s t u : String)
    → compare s t ≡ Ordering.lt
    → compare t u ≡ Ordering.lt
    → compare s u ≡ Ordering.lt
compare_trans [] [] u h k = k
compare_trans [] (d ∷ t) [] h k = absurd (cc (rw (compare.cons-nil d t) at k))
compare_trans [] (d ∷ t) (e ∷ u) h k = compare.nil-cons e u
compare_trans (c ∷ s) [] u h k = absurd (cc (rw (compare.cons-nil c s) at h))
compare_trans (c ∷ s) (d ∷ t) [] h k = absurd (cc (rw (compare.cons-nil d t) at k))
compare_trans (c ∷ s) (d ∷ t) (e ∷ u) h k = rw (compare.cons-cons c e s u) (
    lt-then (code c) (code d) (code e) (compare s t) (compare t u) (compare s u)
      (compare_trans s t u) (rw (compare.cons-cons c d s t) at h)
      (rw (compare.cons-cons d e t u) at k))

lt_of_before : (s t : String) → before s t ≡ true → compare s t ≡ Ordering.lt
unfolding before
lt_of_before s t h = ground arith

-- Of two texts that are not equal, one is before the other.
pub before-not : (s t : String) → (s == t) ≡ false → before t s ≡ not (before s t)
unfolding before
before-not s t ne = rw (compare-flip s t) (ground arith)

pub before-asym : (s t : String) → before s t ≡ true → before t s ≡ false
unfolding before
before-asym s t h = rw (compare-flip s t) (ground arith)

pub before_trans : (s t u : String) → before s t ≡ true → before t u ≡ true → before s u ≡ true
unfolding before
before_trans s t u h k = rw (compare_trans s t u (lt_of_before s t h) (lt_of_before t u k)) refl
