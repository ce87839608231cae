-- ===== src/Sync/Links/Valid.antt =====
-- Inserting a link under unfound keys, and updating links apart from their keys, keep the table's
-- constraints.
use invoicing_platform.Prelude.{
  ℕ, suc, ◌<◌, ◌≡◌, ◌⊎◌, inl, inr, refl, ap, ◌∙◌, Bool, true, false, none, some, List, [], ◌∷◌,
  ◌++◌, arith, All, if◌then◌else◌, first, update, remove,
}
use invoicing_platform.Prelude.Unique.{
  IsUnique, IsUnique-append_one, update-IsUnique, update-All, remove-IsUnique, remove-All,
  All-append, All-always, All-map,
}
use invoicing_platform.Database.{RowId, SyncLinkRow}
use invoicing_platform.Sync.Links.{is_local_key, is_qbo_key}
use invoicing_platform.Sync.Links.Keys.{
  local_clash, qbo_clash, clash_at, id_clash, IsValidLinks, unfound-local, unfound-qbo, unfound-id,
  clash_at-null, clash_at-cong,
}

-- A link that has no QBO id yet, or one that the table does not hold.
abbrev pub IsUnclaimed : SyncLinkRow → List SyncLinkRow → Type 0
IsUnclaimed new links =
    (new.qbo_id ≡ none)
    ⊎ ((q : RowId) × (new.qbo_id ≡ some q)
        × (first (is_qbo_key new.org_id new.qbo_type q) links ≡ none))

pub insert-IsValidLinks :
    (new : SyncLinkRow) (links : List SyncLinkRow) (next : ℕ)
    → IsValidLinks links next
    → new.id ≡ next
    → first (is_local_key new.org_id new.entity_type new.local_id) links ≡ none
    → IsUnclaimed new links
    → IsValidLinks (links ++ (new ∷ [])) (suc next)
insert-IsValidLinks new links next v e unfound unclaimed = record {
  local_unique =
      IsUnique-append_one local_clash links new v.local_unique (unfound-local new links unfound);
  qbo_unique = IsUnique-append_one qbo_clash links new v.qbo_unique (apart unclaimed);
  id_unique =
      IsUnique-append_one id_clash links new v.id_unique (unfound-id new next links e v.id_below);
  id_below =
      All-append (λ l. l.id < suc next) links (new ∷ [])
        (All-map links (λ l h. omega arith) v.id_below) (rw e (omega arith), tt);
}
  where
    apart : IsUnclaimed new links → All (λ l. qbo_clash l new ≡ false) links
    apart (inl no_id) = All-always links (λ l. clash_at-null l new l.qbo_id no_id)
    apart (inr (q, is_q, free)) = unfound-qbo new q links is_q free

-- What an update leaves alone.
pub record KeepsLocalKey (f : SyncLinkRow → SyncLinkRow) : Type 0 where
  pub id : (l : SyncLinkRow) → (f l).id ≡ l.id
  pub org_id : (l : SyncLinkRow) → (f l).org_id ≡ l.org_id
  pub entity_type : (l : SyncLinkRow) → (f l).entity_type ≡ l.entity_type
  pub local_id : (l : SyncLinkRow) → (f l).local_id ≡ l.local_id

pub record KeepsKeys (f : SyncLinkRow → SyncLinkRow) : Type 0 where
  pub local_key : KeepsLocalKey f
  pub qbo_type : (l : SyncLinkRow) → (f l).qbo_type ≡ l.qbo_type
  pub qbo_id : (l : SyncLinkRow) → (f l).qbo_id ≡ l.qbo_id

module _ {f : SyncLinkRow → SyncLinkRow} where
  keeps-local_clash :
      (k : KeepsLocalKey f) (b c : Bool) (x y : SyncLinkRow)
      → local_clash (if b then f x else x) (if c then f y else y) ≡ local_clash x y
  keeps-local_clash k true true x y =
      rw (k.org_id x, k.org_id y, k.entity_type x, k.entity_type y, k.local_id x, k.local_id y)
  keeps-local_clash k true false x y = rw (k.org_id x, k.entity_type x, k.local_id x)
  keeps-local_clash k false true x y = rw (k.org_id y, k.entity_type y, k.local_id y)
  keeps-local_clash k false false x y = refl

  keeps-id_clash :
      (k : KeepsLocalKey f) (b c : Bool) (x y : SyncLinkRow)
      → id_clash (if b then f x else x) (if c then f y else y) ≡ id_clash x y
  keeps-id_clash k true true x y = rw (k.id x, k.id y)
  keeps-id_clash k true false x y = rw (k.id x)
  keeps-id_clash k false true x y = rw (k.id y)
  keeps-id_clash k false false x y = refl

  keeps-qbo_clash :
      (k : KeepsKeys f) (b c : Bool) (x y : SyncLinkRow)
      → qbo_clash (if b then f x else x) (if c then f y else y) ≡ qbo_clash x y
  keeps-qbo_clash k true true x y =
      ap (λ o. clash_at o (f x) (f y)) (k.qbo_id x)
      ∙ clash_at-cong (f x) (f y) x y x.qbo_id (k.local_key.org_id x, k.qbo_type x)
          (k.local_key.org_id y, k.qbo_type y, k.qbo_id y)
  keeps-qbo_clash k true false x y =
      ap (λ o. clash_at o (f x) y) (k.qbo_id x)
      ∙ clash_at-cong (f x) y x y x.qbo_id (k.local_key.org_id x, k.qbo_type x) (refl, refl, refl)
  keeps-qbo_clash k false true x y =
      clash_at-cong x (f y) x y x.qbo_id (refl, refl)
        (k.local_key.org_id y, k.qbo_type y, k.qbo_id y)
  keeps-qbo_clash k false false x y = refl

  -- An update that leaves ids and local keys alone, whatever it does to the QBO ids.
  pub update-local-IsUnique :
      (p : SyncLinkRow → Bool) (links : List SyncLinkRow)
      → KeepsLocalKey f
      → IsUnique local_clash links
      → IsUnique local_clash (update p f links)
  update-local-IsUnique p links k u =
      update-IsUnique (λ l. Unit) local_clash local_clash p f links
        (λ x y _ _ h _. keeps-local_clash k (p x) (p y) x y ∙ h) (All-always links (λ l. tt)) u u

  pub update-id-IsUnique :
      (p : SyncLinkRow → Bool) (links : List SyncLinkRow)
      → KeepsLocalKey f
      → IsUnique id_clash links
      → IsUnique id_clash (update p f links)
  update-id-IsUnique p links k u =
      update-IsUnique (λ l. Unit) id_clash id_clash p f links
        (λ x y _ _ h _. keeps-id_clash k (p x) (p y) x y ∙ h) (All-always links (λ l. tt)) u u

  pub update-id_below :
      (p : SyncLinkRow → Bool) (links : List SyncLinkRow) (next : ℕ)
      → KeepsLocalKey f
      → All (λ l. l.id < next) links
      → All (λ l. l.id < next) (update p f links)
  update-id_below p links next k below =
      update-All p f links (λ l h _. rw (k.id l) h) (λ l h _. h) below

  -- An update that leaves every key alone keeps the table valid.
  pub update-IsValidLinks :
      (p : SyncLinkRow → Bool) (links : List SyncLinkRow) (next : ℕ)
      → KeepsKeys f
      → IsValidLinks links next
      → IsValidLinks (update p f links) next
  update-IsValidLinks p links next k v = record {
    local_unique = update-local-IsUnique p links k.local_key v.local_unique;
    qbo_unique =
        update-IsUnique (λ l. Unit) qbo_clash qbo_clash p f links
          (λ x y _ _ h _. keeps-qbo_clash k (p x) (p y) x y ∙ h) (All-always links (λ l. tt))
          v.qbo_unique v.qbo_unique;
    id_unique = update-id-IsUnique p links k.local_key v.id_unique;
    id_below = update-id_below p links next k.local_key v.id_below;
  }

pub remove-IsValidLinks :
    (p : SyncLinkRow → Bool) (links : List SyncLinkRow) (next : ℕ)
    → IsValidLinks links next
    → IsValidLinks (remove p links) next
remove-IsValidLinks p links next v = record {
  local_unique = remove-IsUnique local_clash p links v.local_unique;
  qbo_unique = remove-IsUnique qbo_clash p links v.qbo_unique;
  id_unique = remove-IsUnique id_clash p links v.id_unique;
  id_below = remove-All (λ l. l.id < next) p links v.id_below;
}
