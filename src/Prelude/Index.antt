-- ===== src/Prelude/Index.antt =====
-- Positions in a list that is put together of two: indexing, `take`, `drop` and `rposition`.
use Prim.Native.Nat.{ℕ, zero, suc, ◌+◌, ◌<◌}
use mathlib.Core.Bool.{Bool, true, false}
use mathlib.Core.Logic.{◌≢◌}
use mathlib.Core.List.{cons-ne-nil, List, [], ◌∷◌, ◌++◌}
use mathlib.Core.Option.{some, none}
use mathlib.Core.Path.{◌≡◌, refl, ap}
use native.Mathlib.Omega.{arith}
use sudowhat.Prelude.Lists.{length, take, drop, get_elem?, rposition, All}

module _ {ℓ} {A : Type ℓ} where
  pub take-append_left : (xs ys : List A) → take (length xs) (xs ++ ys) ≡ xs
  take-append_left [] ys = refl
  take-append_left (x ∷ xs) ys = ap (λ zs. x ∷ zs) (take-append_left xs ys)

  pub drop-append_left : (xs ys : List A) → drop (length xs) (xs ++ ys) ≡ ys
  drop-append_left [] ys = refl
  drop-append_left (x ∷ xs) ys = drop-append_left xs ys

  pub get_elem?-append_right :
      (xs ys : List A) (i : ℕ) → get_elem? (xs ++ ys) (i + length xs) ≡ get_elem? ys i
  get_elem?-append_right [] ys i = let e : i + 0 ≡ i = omega arith in rw e
  get_elem?-append_right (x ∷ xs) ys i =
      let e : i + suc (length xs) ≡ suc (i + length xs) = omega arith in
      rw e (get_elem?-append_right xs ys i)

  pub get_elem?-All :
      {P : A → Type 0} (xs : List A) (i : ℕ)
      → All P xs
      → i < length xs
      → (x : A) × (get_elem? xs i ≡ some x) × P x
  get_elem?-All [] i h lt = absurd (omega arith)
  get_elem?-All (x ∷ xs) zero h lt = (x, refl, h.0)
  get_elem?-All (x ∷ xs) (suc i) h lt = get_elem?-All xs i h.1 (omega arith)

  pub rposition-none :
      (f : A → Bool) (xs : List A) → All (λ x. f x ≡ false) xs → rposition f xs ≡ none
  unfolding rposition
  rposition-none f [] h = refl
  rposition-none f (x ∷ xs) h = rw (rposition-none f xs h.1, h.0)

  pub rposition-last :
      (f : A → Bool) (xs : List A) (x : A) (ys : List A)
      → f x ≡ true
      → All (λ y. f y ≡ false) ys
      → rposition f (xs ++ x ∷ ys) ≡ some (length xs)
  unfolding rposition
  rposition-last f [] x ys hx h = rw (rposition-none f ys h, hx)
  rposition-last f (z ∷ xs) x ys hx h = rw (rposition-last f xs x ys hx h)

  pub All-last : (P : A → Type 0) (xs : List A) (x : A) → All P (xs ++ x ∷ []) → P x
  All-last P [] x h = h.0
  All-last P (y ∷ xs) x h = All-last P xs x h.1

  pub last-cases : (xs : List A) → xs ≢ [] → (ys : List A) × (y : A) × (xs ≡ ys ++ y ∷ [])
  last-cases [] ne = absurd (ne refl)
  last-cases (x ∷ []) ne = ([], x, refl)
  last-cases (x ∷ z ∷ xs) ne =
      let (ys, y, e) = last-cases (z ∷ xs) (cons-ne-nil z xs) in (x ∷ ys, y, ap (λ zs. x ∷ zs) e)
