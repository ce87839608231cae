-- ===== src/Money/SameText.antt =====
-- The comparison of texts by `===`.
use invoicing_platform.Prelude.{◌≡◌, ◌↔◌, refl, true, [], ◌∷◌, ◌==◌, ==_iff, ◌&&◌, Bool, arith}
use invoicing_platform.Money.{Text, same_text}

pub both_true : (a b : Bool) → (a && b) ≡ true → (a ≡ true) × (b ≡ true)
both_true a b h = ground arith

same_text-eq : (s t : Text) → same_text s t ≡ true → s ≡ t
same_text-eq [] [] h = refl
same_text-eq [] (d ∷ t) h = absurd (cc)
same_text-eq (c ∷ s) [] h = absurd (cc)
same_text-eq (c ∷ s) (d ∷ t) h =
    let (e, k) = both_true (c == d) (same_text s t) h in
    rw ((==_iff c d).0 e, same_text-eq s t k) refl

same_text_refl : (s : Text) → same_text s s ≡ true
same_text_refl [] = refl
same_text_refl (c ∷ s) = rw ((==_iff c c).1 refl, same_text_refl s)

pub same_text_iff : (s t : Text) → (same_text s t ≡ true) ↔ (s ≡ t)
same_text_iff s t = (same_text-eq s t, λ e. rw e (same_text_refl t))
