-- ===== src/Prelude/Unique.antt =====
-- Unique constraints: no two rows of a table clash. What an insertion and an update keep.
use mathlib.Core.Path.{◌≡◌, subst}
use mathlib.Core.Logic.{inl, inr}
use mathlib.Core.Bool.{Bool, true, false}
use mathlib.Core.Option.{none, some, some-injective}
use mathlib.Core.List.{List, [], ◌∷◌, ◌++◌}
use invoicing_platform.Prelude.Tests.{if◌then◌else◌, Bool-cases}
use invoicing_platform.Prelude.Lists.{first, update, remove, All}

module _ {A : Type 0} where
  -- `clash x y` for no `x` before a `y`.
  abbrev pub IsUnique : (A → A → Bool) → List A → Type 0
  IsUnique clash [] = Unit
  IsUnique clash (x ∷ xs) = All (λ y. clash x y ≡ false) xs × IsUnique clash xs

  pub All-map : {P Q : A → Type 0} (xs : List A) → ((x : A) → P x → Q x) → All P xs → All Q xs
  All-map [] f h = tt
  All-map (x ∷ xs) f h = (f x h.0, All-map xs f h.1)

  pub All-append : (P : A → Type 0) (xs ys : List A) → All P xs → All P ys → All P (xs ++ ys)
  All-append P [] ys h k = k
  All-append P (x ∷ xs) ys h k = (h.0, All-append P xs ys h.1 k)

  pub All-always : {P : A → Type 0} (xs : List A) → ((x : A) → P x) → All P xs
  All-always [] f = tt
  All-always (x ∷ xs) f = (f x, All-always xs f)

  pub All-both : (P Q : A → Type 0) (xs : List A) → All P xs → All Q xs → All (λ x. P x × Q x) xs
  All-both P Q [] h k = tt
  All-both P Q (x ∷ xs) h k = ((h.0, k.0), All-both P Q xs h.1 k.1)

  pub All-three :
      (P Q R : A → Type 0) (xs : List A)
      → All P xs
      → All Q xs
      → All R xs
      → All (λ x. P x × Q x × R x) xs
  All-three P Q R [] h k l = tt
  All-three P Q R (x ∷ xs) h k l = ((h.0, k.0, l.0), All-three P Q R xs h.1 k.1 l.1)

  -- What `limit(1)` says: nothing found, or a row found that fits and stands in the table.
  pub first-eq-none : (p : A → Bool) (xs : List A) → first p xs ≡ none → All (λ x. p x ≡ false) xs
  first-eq-none p [] h = tt
  first-eq-none p (x ∷ xs) h = elim (Bool-cases (p x)) [
    | inl e ↦ absurd (cc (rw e at h))
    | inr e ↦ (e, first-eq-none p xs (rw e at h))
  ]

  pub first-fits : (p : A → Bool) (xs : List A) {a : A} → first p xs ≡ some a → p a ≡ true
  first-fits p [] h = absurd (cc)
  first-fits p (x ∷ xs) {a} h = elim (Bool-cases (p x)) [
    | inl e ↦ subst (λ y. p y ≡ true) (some-injective x a (rw e at h)) e
    | inr e ↦ first-fits p xs (rw e at h)
  ]

  pub first-All :
      (P : A → Type 0) (p : A → Bool) (xs : List A) {a : A} → first p xs ≡ some a → All P xs → P a
  first-All P p [] e h = absurd (cc)
  first-All P p (x ∷ xs) {a} e h = elim (Bool-cases (p x)) [
    | inl f ↦ subst P (some-injective x a (rw f at e)) h.0
    | inr f ↦ first-All P p xs (rw f at e) h.1
  ]

  pub IsUnique-append_one :
      (clash : A → A → Bool) (xs : List A) (y : A)
      → IsUnique clash xs
      → All (λ x. clash x y ≡ false) xs
      → IsUnique clash (xs ++ (y ∷ []))
  IsUnique-append_one clash [] y u h = (tt, tt)
  IsUnique-append_one clash (x ∷ xs) y u h =
      (All-append _ xs (y ∷ []) u.0 (h.0, tt), IsUnique-append_one clash xs y u.1 h.1)

  pub update-All :
      {P Q : A → Type 0} (p : A → Bool) (f : A → A) (xs : List A)
      → ((x : A) → P x → p x ≡ true → Q (f x))
      → ((x : A) → P x → p x ≡ false → Q x)
      → All P xs
      → All Q (update p f xs)
  update-All p f [] g k h = tt
  update-All p f (x ∷ xs) g k h = elim (Bool-cases (p x)) [
    | inl e ↦ (rw e (g x h.0 e), update-All p f xs g k h.1)
    | inr e ↦ (rw e (k x h.0 e), update-All p f xs g k h.1)
  ]

  pub remove-All : (P : A → Type 0) (p : A → Bool) (xs : List A) → All P xs → All P (remove p xs)
  remove-All P p [] h = tt
  remove-All P p (x ∷ xs) h = elim (Bool-cases (p x)) [
    | inl e ↦ rw e (remove-All P p xs h.1)
    | inr e ↦ rw e (h.0, remove-All P p xs h.1)
  ]

  pub remove-IsUnique :
      (clash : A → A → Bool) (p : A → Bool) (xs : List A)
      → IsUnique clash xs
      → IsUnique clash (remove p xs)
  remove-IsUnique clash p [] u = tt
  remove-IsUnique clash p (x ∷ xs) u = elim (Bool-cases (p x)) [
    | inl e ↦ rw e (remove-IsUnique clash p xs u.1)
    | inr e ↦ rw e (remove-All _ p xs u.0, remove-IsUnique clash p xs u.1)
  ]

  -- An update that maps rows apart to rows apart keeps a constraint. `apart` are tests that two rows
  -- of the table are known to pass besides, such as having different ids.
  pub update-IsUnique :
      (P : A → Type 0) (clash apart : A → A → Bool) (p : A → Bool) (f : A → A) (xs : List A)
      → ((x y : A)
          → P x
          → P y
          → clash x y ≡ false
          → apart x y ≡ false
          → clash (if p x then f x else x) (if p y then f y else y) ≡ false)
      → All P xs
      → IsUnique apart xs
      → IsUnique clash xs
      → IsUnique clash (update p f xs)
  update-IsUnique P clash apart p f [] keeps h a u = tt
  update-IsUnique P clash apart p f (x ∷ xs) keeps h a u = (
    update-All p f xs (λ y fits e. rw e at (keeps x y h.0 fits.0 fits.1 fits.2))
        (λ y fits e. rw e at (keeps x y h.0 fits.0 fits.1 fits.2))
        (All-three P (λ y. clash x y ≡ false) (λ y. apart x y ≡ false) xs h.1 u.0 a.0),
    update-IsUnique P clash apart p f xs keeps h.1 a.1 u.1,
  )
