-- ===== src/Sync/Links/Keys.antt =====
-- The two unique constraints of `sync_links`, and the ids.
use mathlib.Core.Path.{subst}
use invoicing_platform.Prelude.{
  ℕ, ◌<◌, ◌≡◌, refl, ap, ==_iff, inl, inr, Bool-cases, [], ◌∷◌, Bool, true, false, ◌&&◌, Option,
  none, some, List, arith, ◌==◌, All, first,
}
use invoicing_platform.Prelude.Unique.{IsUnique, first-eq-none, first-fits, first-All, All-map}
use invoicing_platform.Database.{RowId, SyncEntityType, SyncLinkRow, Database}
use invoicing_platform.Sync.Links.{qbo_code, is_local_key, is_qbo_key, find_link_by_local}

-- `sync_links_local_unique`
abbrev pub local_clash : SyncLinkRow → SyncLinkRow → Bool
local_clash a b = is_local_key a.org_id a.entity_type a.local_id b

abbrev pub clash_at : Option RowId → SyncLinkRow → SyncLinkRow → Bool
clash_at none a b = false
clash_at (some q) a b = is_qbo_key a.org_id a.qbo_type q b

-- `sync_links_qbo_unique`; a null QBO id is distinct from every other.
abbrev pub qbo_clash : SyncLinkRow → SyncLinkRow → Bool
qbo_clash a b = clash_at a.qbo_id a b

abbrev pub id_clash : SyncLinkRow → SyncLinkRow → Bool
id_clash a b = a.id == b.id

-- The table obeys its constraints, and its ids have been handed out.
pub record IsValidLinks (links : List SyncLinkRow) (next : ℕ) : Type 0 where
  pub local_unique : IsUnique local_clash links
  pub qbo_unique : IsUnique qbo_clash links
  pub id_unique : IsUnique id_clash links
  pub id_below : All (λ l. l.id < next) links

abbrev pub HasValidLinks : Database → Type 0
HasValidLinks db = IsValidLinks db.sync_links db.next_id

-- A key that the finder does not find clashes with no row of the table.
pub unfound-local :
    (new : SyncLinkRow) (links : List SyncLinkRow)
    → first (is_local_key new.org_id new.entity_type new.local_id) links ≡ none
    → All (λ l. local_clash l new ≡ false) links
unfound-local new links h =
    All-map links (λ l e. ground arith)
      (first-eq-none (is_local_key new.org_id new.entity_type new.local_id) links h)

clash_at_sym :
    (a b : SyncLinkRow) (o : Option RowId) (q : RowId)
    → a.qbo_id ≡ o
    → b.qbo_id ≡ some q
    → is_qbo_key b.org_id b.qbo_type q a ≡ false
    → clash_at o a b ≡ false
clash_at_sym a b none q e f h = refl
clash_at_sym a b (some r) q e f h = rw f (ground arith)

pub unfound-qbo :
    (new : SyncLinkRow) (q : RowId) (links : List SyncLinkRow)
    → new.qbo_id ≡ some q
    → first (is_qbo_key new.org_id new.qbo_type q) links ≡ none
    → All (λ l. qbo_clash l new ≡ false) links
unfound-qbo new q links e h =
    All-map links (λ l f. clash_at_sym l new l.qbo_id q refl e f)
      (first-eq-none (is_qbo_key new.org_id new.qbo_type q) links h)

pub unfound-id :
    (new : SyncLinkRow) (next : ℕ) (links : List SyncLinkRow)
    → new.id ≡ next
    → All (λ l. l.id < next) links
    → All (λ l. id_clash l new ≡ false) links
unfound-id new next links e h = All-map links (λ l below. ground arith) h

-- A link with no QBO id clashes with none.
pub clash_at-null :
    (a b : SyncLinkRow) (o : Option RowId) → b.qbo_id ≡ none → clash_at o a b ≡ false
clash_at-null a b none e = refl
clash_at-null a b (some q) e = rw e (ground arith)

-- Rows with the same QBO keys clash alike.
pub clash_at-cong :
    (a b c d : SyncLinkRow) (o : Option RowId)
    → (a.org_id ≡ c.org_id) × (a.qbo_type ≡ c.qbo_type)
    → (b.org_id ≡ d.org_id) × (b.qbo_type ≡ d.qbo_type) × (b.qbo_id ≡ d.qbo_id)
    → clash_at o a b ≡ clash_at o c d
clash_at-cong a b c d none e f = refl
clash_at-cong a b c d (some q) e f = ground arith

clash_at_symm :
    (a b : SyncLinkRow) (o p : Option RowId)
    → a.qbo_id ≡ o
    → b.qbo_id ≡ p
    → clash_at o a b ≡ false
    → clash_at p b a ≡ false
clash_at_symm a b o none e f h = refl
clash_at_symm a b none (some q) e f h = rw e (ground arith)
clash_at_symm a b (some r) (some q) e f h =
    let k : is_qbo_key a.org_id a.qbo_type r b ≡ false = h in rw e (key_apart (rw f at k))
  where
    key_apart :
        (b.org_id == a.org_id && (qbo_code b.qbo_type == qbo_code a.qbo_type && (q == r))) ≡ false
        → (a.org_id == b.org_id && (qbo_code a.qbo_type == qbo_code b.qbo_type && (r == q))) ≡ false
    key_apart t = ground arith

-- A row of the table has its QBO key to itself.
pub found-qbo_apart :
    (p : SyncLinkRow → Bool) (links : List SyncLinkRow) (l : SyncLinkRow)
    → first p links ≡ some l
    → IsUnique qbo_clash links
    → All (λ y. (y.id == l.id) ≡ false → qbo_clash l y ≡ false) links
found-qbo_apart p [] l h u = tt
found-qbo_apart p (x ∷ xs) l h u = elim (Bool-cases (p x)) [
  | inl e ↦
      let same : x ≡ l = ground (arith, rw e at h) in
      (
        (λ differ. absurd (ground (arith, ap (λ z. z.id) same))),
        subst (λ z. All (λ y. (y.id == z.id) ≡ false → qbo_clash z y ≡ false) xs) same
            (All-map xs (λ y apart _. apart) u.0),
      )
  | inr e ↦
      let later : first p xs ≡ some l = rw e at h in
      (
        (λ _.
            clash_at_symm x l x.qbo_id l.qbo_id refl refl
              (first-All (λ y. qbo_clash x y ≡ false) p xs later u.0)),
        found-qbo_apart p xs l later u.1,
      )
]

-- The finder finds a row of its key.
pub find_link_by_local-fits :
    (org : RowId) (entity : SyncEntityType) (local : RowId) (db : Database) {l : SyncLinkRow}
    → find_link_by_local org entity local db ≡ some l
    → is_local_key org entity local l ≡ true
unfolding find_link_by_local
find_link_by_local-fits org entity local db h =
    first-fits (is_local_key org entity local) db.sync_links h

-- A row that a finder found is found by its id.
pub found-by_id :
    (p : SyncLinkRow → Bool) (links : List SyncLinkRow) (l : SyncLinkRow)
    → first p links ≡ some l
    → IsUnique id_clash links
    → first (λ x. x.id == l.id) links ≡ some l
found-by_id p [] l h u = absurd (cc)
found-by_id p (x ∷ xs) l h u = elim (Bool-cases (p x)) [
  | inl e ↦ let same : x ≡ l = ground (arith, rw e at h) in rw (same, (==_iff l.id l.id).1 refl)
  | inr e ↦
      let later : first p xs ≡ some l = rw e at h in
      rw (first-All (λ y. id_clash x y ≡ false) p xs later u.0) (found-by_id p xs l later u.1)
]
