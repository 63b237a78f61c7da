-- ===== src/Store/Library/Sorting.antt =====
-- `sort.Slice` in internal/store/library_meta_store.go: what does not depend on the arrangement.
use telebook_server.Prelude.{
  suc, String, ◌≡◌, refl, ◌∙◌, sym, ap, subst, false, List, [], ◌∷◌, map, length, All, before-not,
  before_trans, before, if_rule, eq_iff, arith, ◌==◌,
}
use telebook_server.Store.Library.{FileItem, BookItem, Arrangement, put_sorted, sort_by, sort_slice}

-- Lists that differ by exchanges of neighbours, and in elements that `R` relates.
pub data Reordered {A : Type 0} (R : A → A → Type 0) : List A → List A → Type 0 where
  nil : Reordered R [] []
  cons : {x y : A} {xs ys : List A} → R x y → Reordered R xs ys → Reordered R (x ∷ xs) (y ∷ ys)
  swap : {x y : A} {xs : List A} → Reordered R (x ∷ y ∷ xs) (y ∷ x ∷ xs)
  trans : {xs ys zs : List A} → Reordered R xs ys → Reordered R ys zs → Reordered R xs zs

-- Another order of the same elements.
abbrev pub Shuffled : {A : Type 0} → List A → List A → Type 0
Shuffled = Reordered (λ x y. x ≡ y)

-- Two elements never have one text.
abbrev pub NoRepeat : {A : Type 0} → (A → String) → List A → Type 0
NoRepeat text [] = Unit
NoRepeat text (x ∷ xs) = All (λ y. (text x == text y) ≡ false) xs × NoRepeat text xs

-- The arrangements permute.
pub record Permutes (r : Arrangement) : Type 0 where
  pub files : (fs : List FileItem) → Shuffled fs (r.of_files fs)
  pub books : (its : List BookItem) → Shuffled its (r.of_books its)

module _ {A : Type 0} {R : A → A → Type 0} where
  pub All-Reordered :
      (P : A → Type 0)
      → ((x y : A) → R x y → P x → P y)
      → {xs ys : List A} → Reordered R xs ys
      → All P xs
      → All P ys
  All-Reordered P step nil h = h
  All-Reordered P step (cons {x} {y} e r) (h, hs) = (step x y e h, All-Reordered P step r hs)
  All-Reordered P step swap (h, (k, hs)) = (k, (h, hs))
  All-Reordered P step (trans r q) h = All-Reordered P step q (All-Reordered P step r h)

  pub length-Reordered : {xs ys : List A} → Reordered R xs ys → length xs ≡ length ys
  length-Reordered nil = refl
  length-Reordered (cons e r) = ap suc (length-Reordered r)
  length-Reordered swap = refl
  length-Reordered (trans r q) = length-Reordered r ∙ length-Reordered q

other_way : (s t : String) → (s == t) ≡ false → (t == s) ≡ false
other_way s t h = ground (arith, eq_iff s t, eq_iff t s)

module _ {A : Type 0} (text : A → String) where
  pub NoRepeat-Reordered :
      {R : A → A → Type 0}
      → ((x y : A) → R x y → text x ≡ text y)
      → {xs ys : List A} → Reordered R xs ys
      → NoRepeat text xs
      → NoRepeat text ys
  NoRepeat-Reordered keeps nil h = h
  NoRepeat-Reordered keeps (cons {x} {y} {xs} e r) (h, hs) = (
    All-Reordered (λ z. (text y == text z) ≡ false)
        (λ a b q k. subst (λ t. (text y == t) ≡ false) (keeps a b q) k) r
        (subst (λ t. All (λ z. (t == text z) ≡ false) xs) (keeps x y e) h),
    NoRepeat-Reordered keeps r hs,
  )
  NoRepeat-Reordered keeps (swap {x} {y}) ((n, hx), (hy, hs)) =
      ((other_way (text x) (text y) n, hy), (hx, hs))
  NoRepeat-Reordered keeps (trans r q) h = NoRepeat-Reordered keeps q (NoRepeat-Reordered keeps r h)

  NoRepeat-Shuffled : {xs ys : List A} → Shuffled xs ys → NoRepeat text xs → NoRepeat text ys
  NoRepeat-Shuffled r h = NoRepeat-Reordered (λ x y e. ap text e) r h

  put_sorted_comm :
      (x y : A) (xs : List A)
      → (text x == text y) ≡ false
      → put_sorted text x (put_sorted text y xs) ≡ put_sorted text y (put_sorted text x xs)
  unfolding put_sorted
  put_sorted_comm x y [] ne = rw (before-not (text x) (text y) ne) (ground arith)
  put_sorted_comm x y (z ∷ zs) ne = ground (
    arith,
    before-not (text x) (text y) ne,
    before_trans (text z) (text x) (text y),
    before_trans (text z) (text y) (text x),
    put_sorted_comm x y zs ne,
  )

  sort_by-Shuffled :
      {xs ys : List A} → Shuffled xs ys → NoRepeat text xs → sort_by text xs ≡ sort_by text ys
  unfolding sort_by
  sort_by-Shuffled nil h = refl
  sort_by-Shuffled (cons e r) (h, hs) = rw (e, sort_by-Shuffled r hs) refl
  sort_by-Shuffled (swap {x} {y} {xs}) ((n, hx), hs) = put_sorted_comm x y (sort_by text xs) n
  sort_by-Shuffled (trans r q) h = sort_by-Shuffled r h ∙ sort_by-Shuffled q (NoRepeat-Shuffled r h)

  -- Both lists sorted, each by its own arrangement.
  pub sort_slice-Shuffled :
      (f g : List A → List A) (xs ys : List A)
      → Shuffled xs (f xs)
      → Shuffled ys (g ys)
      → Shuffled xs ys
      → NoRepeat text xs
      → sort_slice f text xs ≡ sort_slice g text ys
  unfolding sort_slice
  sort_slice-Shuffled f g xs ys p q r h =
      sym (sort_by-Shuffled p h) ∙ sort_by-Shuffled r h ∙ sort_by-Shuffled q (NoRepeat-Shuffled r h)

module _ {A : Type 0} (text : A → String) where
  put_sorted-All :
      (P : A → Type 0) (x : A) (xs : List A) → P x → All P xs → All P (put_sorted text x xs)
  unfolding put_sorted
  put_sorted-All P x [] p h = (p, tt)
  put_sorted-All P x (y ∷ ys) p h =
      if_rule (All P) (before (text y) (text x)) (λ _. (h.0, put_sorted-All P x ys p (h.1)))
        λ _. (p, h)

  sort_by-All : (P : A → Type 0) (xs : List A) → All P xs → All P (sort_by text xs)
  unfolding sort_by
  sort_by-All P [] h = tt
  sort_by-All P (x ∷ xs) h = put_sorted-All P x (sort_by text xs) (h.0) (sort_by-All P xs (h.1))

  length-put_sorted : (x : A) (xs : List A) → length (put_sorted text x xs) ≡ suc (length xs)
  unfolding put_sorted
  length-put_sorted x [] = refl
  length-put_sorted x (y ∷ ys) = ground (arith, length-put_sorted x ys)

  length-sort_by : (xs : List A) → length (sort_by text xs) ≡ length xs
  unfolding sort_by
  length-sort_by [] = refl
  length-sort_by (x ∷ xs) = length-put_sorted x (sort_by text xs) ∙ ap suc (length-sort_by xs)

  pub sort_slice-All :
      (P : A → Type 0) (f : List A → List A) (xs : List A)
      → Shuffled xs (f xs)
      → All P xs
      → All P (sort_slice f text xs)
  unfolding sort_slice
  sort_slice-All P f xs r h = sort_by-All P (f xs) (All-Reordered P (λ x y e p. subst P e p) r h)

  pub length-sort_slice :
      (f : List A → List A) (xs : List A)
      → Shuffled xs (f xs)
      → length xs ≡ length (sort_slice f text xs)
  unfolding sort_slice
  length-sort_slice f xs r = length-Reordered r ∙ sym (length-sort_by (f xs))

module _ {A B : Type 0} (f : A → B) where
  pub All-map : (P : B → Type 0) (xs : List A) → All (λ x. P (f x)) xs → All P (map f xs)
  All-map P [] h = tt
  All-map P (x ∷ xs) h = (h.0, All-map P xs h.1)

  pub NoRepeat-map :
      (text : B → String) (xs : List A) → NoRepeat (λ x. text (f x)) xs → NoRepeat text (map f xs)
  NoRepeat-map text [] h = tt
  NoRepeat-map text (x ∷ xs) h =
      (All-map (λ y. (text (f x) == text y) ≡ false) xs h.0, NoRepeat-map text xs h.1)

  -- Elements that are related, and have `P`, have one image.
  pub map-Reordered :
      {R : A → A → Type 0} (P : A → Type 0)
      → ((x y : A) → R x y → P x → P y)
      → ((x y : A) → R x y → P x → f x ≡ f y)
      → {xs ys : List A} → Reordered R xs ys
      → All P xs
      → Shuffled (map f xs) (map f ys)
  map-Reordered P step same nil h = nil
  map-Reordered P step same (cons {x} {y} e r) (h, hs) =
      cons (same x y e h) (map-Reordered P step same r hs)
  map-Reordered P step same swap h = swap
  map-Reordered P step same (trans r q) h =
      trans (map-Reordered P step same r h) (map-Reordered P step same q (All-Reordered P step r h))
