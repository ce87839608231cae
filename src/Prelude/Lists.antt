-- ===== src/Prelude/Lists.antt =====
-- Lists as tables: Boolean filters, the first row that fits, an update of the rows that fit.
use Prim.Native.Nat.{ℕ, suc}
use mathlib.Core.Path.{◌≡◌, refl}
use mathlib.Core.Logic.{◌⊎◌, inl, inr}
use mathlib.Core.Bool.{Bool, true, false}
use mathlib.Core.Option
use mathlib.Core.Option.{Option, none, some}
use mathlib.Core.List.{List, [], ◌∷◌, ◌++◌}
use invoicing_platform.Prelude.Tests.{if◌then◌else◌, Bool-cases}

abbrev pub is_some {ℓ} : {A : Type ℓ} → Option A → Bool
is_some none = false
is_some (some _) = true

-- `value ?? fallback`
abbrev pub or_default {ℓ} : {A : Type ℓ} → Option A → A → A
or_default none d = d
or_default (some a) _ = a

module _ {ℓ} {A : Type ℓ} where
  abbrev pub length : List A → ℕ
  length [] = 0
  length (x ∷ xs) = suc (length xs)

  -- `.where(p)`
  abbrev pub select : (A → Bool) → List A → List A
  select p [] = []
  select p (x ∷ xs) = let rest = select p xs in if p x then x ∷ rest else rest

  -- `.where(p).limit(1)`
  abbrev pub first : (A → Bool) → List A → Option A
  first p [] = none
  first p (x ∷ xs) = if p x then some x else first p xs

  -- `.delete().where(p)`
  abbrev pub remove : (A → Bool) → List A → List A
  remove p [] = []
  remove p (x ∷ xs) = let rest = remove p xs in if p x then rest else x ∷ rest

  -- `.update().set(f).where(p)`
  abbrev pub update : (A → Bool) → (A → A) → List A → List A
  update p f [] = []
  update p f (x ∷ xs) = (if p x then f x else x) ∷ update p f xs

  abbrev pub All {κ} : (A → Type κ) → List A → Type κ
  All P [] = Unit
  All P (x ∷ xs) = P x × All P xs

  abbrev pub Any : (A → Type 0) → List A → Type 0
  Any P [] = ⊥
  Any P (x ∷ xs) = P x ⊎ Any P xs

module _ {ℓ} {A : Type ℓ} (p : A → Bool) where
  pub select-append : (xs ys : List A) → select p (xs ++ ys) ≡ select p xs ++ select p ys
  select-append [] ys = refl
  select-append (x ∷ xs) ys = elim (Bool-cases (p x)) [
    | inl e ↦ rw (e, select-append xs ys)
    | inr e ↦ rw (e, select-append xs ys)
  ]

  -- Rows that all fit are all kept, and rows of which none fits are all dropped.
  pub select-All : (xs : List A) → All (λ x. p x ≡ true) xs → select p xs ≡ xs
  select-All [] h = refl
  select-All (x ∷ xs) h = rw (h.0, select-All xs h.1)

  pub select-none : (xs : List A) → All (λ x. p x ≡ false) xs → select p xs ≡ []
  select-none [] h = refl
  select-none (x ∷ xs) h = rw (h.0, select-none xs h.1)

pub is_some-false {ℓ} : {A : Type ℓ} (o : Option A) → is_some o ≡ false → o ≡ none
is_some-false none h = refl
is_some-false (some a) h = absurd (cc)

module _ {A : Type 0} where
  -- Finding a row after an update that does not change which rows fit.
  pub first-update :
      (p q : A → Bool) (f : A → A) (xs : List A)
      → ((x : A) → p (f x) ≡ p x)
      → first p (update q f xs) ≡ Option.map (λ x. if q x then f x else x) (first p xs)
  first-update p q f [] k = refl
  first-update p q f (x ∷ xs) k = elim (Bool-cases (q x)) [
    | inl e ↦
        rw (e, k x)
          (elim (Bool-cases (p x)) [ inl h ↦ rw (h, e) | inr h ↦ rw h (first-update p q f xs k) ])
    | inr e ↦
        rw e
          (elim (Bool-cases (p x)) [ inl h ↦ rw (h, e) | inr h ↦ rw h (first-update p q f xs k) ])
  ]

  -- Finding a row after one is added at the end.
  pub first-append_one :
      (p : A → Bool) (xs : List A) (y : A)
      → first p xs ≡ none
      → p y ≡ true
      → first p (xs ++ (y ∷ [])) ≡ some y
  first-append_one p [] y h e = rw e
  first-append_one p (x ∷ xs) y h e = elim (Bool-cases (p x)) [
    | inl k ↦ absurd (cc (rw k at h))
    | inr k ↦ rw k (first-append_one p xs y (rw k at h) e)
  ]

  -- Where one test finds a row that another accepts, the other finds a row too.
  pub first-exists :
      (p q : A → Bool) (xs : List A) {x : A}
      → first q xs ≡ some x
      → p x ≡ true
      → (t : A) × (first p xs ≡ some t) × (p t ≡ true)
  first-exists p q [] h k = absurd (cc)
  first-exists p q (y ∷ ys) h k = elim (Bool-cases (p y)) [
    | inl e ↦ (y, rw e, e)
    | inr e ↦ elim (Bool-cases (q y)) [
      | inl l ↦ absurd (cc (rw l at h))
      | inr l ↦ let (t, found, fits) = first-exists p q ys (rw l at h) k in (t, rw e found, fits)
    ]
  ]

  -- An update after which no changed row fits leaves nothing to find, if all fitting rows are changed.
  pub first-update-none :
      (p q : A → Bool) (f : A → A) (xs : List A)
      → ((x : A) → p (if q x then f x else x) ≡ false)
      → first p (update q f xs) ≡ none
  first-update-none p q f [] h = refl
  first-update-none p q f (x ∷ xs) h = rw (h x) (first-update-none p q f xs h)
