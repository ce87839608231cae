-- ===== src/Sync/Links/Upsert.antt =====
-- `upsertLink` keeps both unique constraints, and never relinks.
use mathlib.Core.Option
use mathlib.Core.Path.{subst}
use invoicing_platform.Prelude.{
  ℕ, ◌≡◌, inl, inr, refl, ◌∙◌, ap, Bool, true, false, ◌&&◌, not, Option, none, some, List, [], ◌∷◌,
  arith, All, ◌==◌, Bool-cases, Option-cases, if◌then◌else◌, first, update, is_some, is_some-false,
}
use invoicing_platform.Prelude.Unique.{
  IsUnique, first-All, first-fits, first-eq-none, update-IsUnique, All-map, All-both,
}
use invoicing_platform.Database.{
  RowId, QboEntityType, SyncLinkRow, Database, ok, failed_write, bind-eq-ok, raise_if-eq-ok,
  raise_if-passes, ok-inj, raise_if-same, some_or_raise-same,
}
use invoicing_platform.Sync.Links.{
  UpsertLinkInput, is_local_key, is_qbo_key, qbo_code, find_link_by_local, find_link_by_qbo,
  check_counterpart, updated_link, inserted_link, upsert_found, upsert_link,
}
use invoicing_platform.Sync.Links.Keys.{
  qbo_clash, clash_at, id_clash, IsValidLinks, HasValidLinks, found-qbo_apart,
}
use invoicing_platform.Sync.Links.Valid.{
  KeepsLocalKey, insert-IsValidLinks, update-local-IsUnique, update-id-IsUnique, update-id_below,
}

-- The row that a finder found is the only one with its id.
IsOnly : SyncLinkRow → SyncLinkRow → Type 0
IsOnly l x = (x.id == l.id) ≡ true → x ≡ l

other-only : (x y l : SyncLinkRow) → x ≡ l → id_clash x y ≡ false → (y.id == l.id) ≡ true → y ≡ l
other-only x y l same apart clash =
    let id_same : x.id ≡ l.id = ap (λ z. z.id) same in absurd (ground arith)

found-IsOnly :
    (p : SyncLinkRow → Bool) (links : List SyncLinkRow) (l : SyncLinkRow)
    → first p links ≡ some l
    → IsUnique id_clash links
    → All (IsOnly l) links
unfolding IsOnly
found-IsOnly p [] l h u = tt
found-IsOnly p (x ∷ xs) l h u = elim (Bool-cases (p x)) [
  | inl e ↦
      let same : x ≡ l = ground (arith, rw e at h) in
      ((λ _. same), All-map xs (λ y apart clash. other-only x y l same apart clash) u.0)
  | inr e ↦
      let later : first p xs ≡ some l = rw e at h in
      (
        (λ clash. absurd (cc (first-All (λ y. id_clash x y ≡ false) p xs later u.0))),
        found-IsOnly p xs l later u.1,
      )
]

module _ (input : UpsertLinkInput) (now : ℕ) where
  updated_link-KeepsLocalKey : KeepsLocalKey (updated_link input now)
  unfolding updated_link
  updated_link-KeepsLocalKey = record {
    id = λ l. refl;
    org_id = λ l. refl;
    entity_type = λ l. refl;
    local_id = λ l. refl;
  }

  updated_back :
      (x y l : SyncLinkRow) (o : Option RowId)
      → x.qbo_id ≡ o
      → y ≡ l
      → is_qbo_key l.org_id l.qbo_type input.qbo_id x ≡ false
      → clash_at o x (updated_link input now y) ≡ false
  unfolding updated_link
  updated_back x y l none e same h = refl
  updated_back x y l (some q) e same h = rw same (apart_back (rw e at h))
    where
      apart_back :
          (x.org_id == l.org_id
              && (qbo_code x.qbo_type == qbo_code l.qbo_type && (q == input.qbo_id)))
            ≡ false
          → (l.org_id == x.org_id
              && (qbo_code l.qbo_type == qbo_code x.qbo_type && (input.qbo_id == q)))
            ≡ false
      apart_back k = ground arith

  -- The row `l` takes the QBO id of the input, and no other row has it.
  module _ (l : SyncLinkRow) (links : List SyncLinkRow)
      (free : All
        (λ y. (y.id == l.id) ≡ false → is_qbo_key l.org_id l.qbo_type input.qbo_id y ≡ false)
        links) where
    abbrev IsFree : SyncLinkRow → Type 0
    IsFree y =
        IsOnly l y
        × ((y.id == l.id) ≡ false → is_qbo_key l.org_id l.qbo_type input.qbo_id y ≡ false)

    updated_apart :
        (x y : SyncLinkRow)
        → IsFree x
        → IsFree y
        → qbo_clash x y ≡ false
        → id_clash x y ≡ false
        → qbo_clash
            (if x.id == l.id then updated_link input now x else x)
            (if y.id == l.id then updated_link input now y else y)
          ≡ false
    unfolding updated_link IsOnly
    updated_apart x y fx fy h apart = elim (Bool-cases (x.id == l.id)) [
      | inl e ↦ elim (Bool-cases (y.id == l.id)) [
        | inl k ↦ absurd (ground arith)
        | inr k ↦ rw (e, k, fx.0 e) (fy.1 k)
      ]
      | inr e ↦ elim (Bool-cases (y.id == l.id)) [
        | inl k ↦ rw (e, k) (updated_back x y l x.qbo_id refl (fy.0 k) (fx.1 e))
        | inr k ↦ rw (e, k) h
      ]
    ]

    update-IsValidLinks-free :
        (next : ℕ)
        → All (IsOnly l) links
        → IsValidLinks links next
        → IsValidLinks (update (λ x. x.id == l.id) (updated_link input now) links) next
    update-IsValidLinks-free next only v =
        let p = λ (x : SyncLinkRow). x.id == l.id in
        record {
          local_unique = update-local-IsUnique p links updated_link-KeepsLocalKey v.local_unique;
          qbo_unique =
              update-IsUnique IsFree qbo_clash id_clash p (updated_link input now) links
                updated_apart (All-both _ _ links only free) v.id_unique v.qbo_unique;
          id_unique = update-id-IsUnique p links updated_link-KeepsLocalKey v.id_unique;
          id_below = update-id_below p links next updated_link-KeepsLocalKey v.id_below;
        }

-- What `find_link_by_local` promises of the row that it finds.
found_key :
    (input : UpsertLinkInput) (db : Database) (l : SyncLinkRow)
    → find_link_by_local input.org_id input.entity_type input.local_id db ≡ some l
    → l.org_id ≡ input.org_id
unfolding find_link_by_local
found_key input db l h =
    let fits =
      first-fits (is_local_key input.org_id input.entity_type input.local_id) db.sync_links h in
    ground arith

qbo_code-injective : (a b : QboEntityType) → qbo_code a ≡ qbo_code b → a ≡ b
qbo_code-injective a b h = ground arith

unclaimed_free :
    (input : UpsertLinkInput) (l : SyncLinkRow) (links : List SyncLinkRow)
    → l.org_id ≡ input.org_id
    → l.qbo_type ≡ input.qbo_type
    → first (is_qbo_key input.org_id input.qbo_type input.qbo_id) links ≡ none
    → All
        (λ y. (y.id == l.id) ≡ false → is_qbo_key l.org_id l.qbo_type input.qbo_id y ≡ false)
        links
unclaimed_free input l links org type h =
    All-map links (λ y free _. ground arith)
      (first-eq-none (is_qbo_key input.org_id input.qbo_type input.qbo_id) links h)

-- A link with no QBO id is not the one that holds the wanted QBO id.
claimed_by_itself :
    (input : UpsertLinkInput) (db : Database) (l m : SyncLinkRow)
    → HasValidLinks db
    → find_link_by_local input.org_id input.entity_type input.local_id db ≡ some l
    → l.qbo_id ≡ none
    → find_link_by_qbo input.org_id input.qbo_type input.qbo_id db ≡ some m
    → not (m.id == l.id) ≡ false
    → ⊥
unfolding find_link_by_local find_link_by_qbo IsOnly
claimed_by_itself input db l m v found no_id claimed same =
    let key = is_qbo_key input.org_id input.qbo_type input.qbo_id in
    let fits = first-fits key db.sync_links claimed in
    let only = first-All (IsOnly l) key db.sync_links claimed (
      found-IsOnly (is_local_key input.org_id input.entity_type input.local_id) db.sync_links l
        found v.id_unique) in
    let id_same : (m.id == l.id) ≡ true = ground arith in
    let m_null : m.qbo_id ≡ none = ap (λ z. z.qbo_id) (only id_same) ∙ no_id in
    absurd (ground arith)

-- The two ways to pass the guards on a link that is there already: it has this QBO counterpart, or it
-- has none and no link has this one.
free_counterpart :
    (input : UpsertLinkInput) (db : Database) (l : SyncLinkRow) (o : Option RowId)
    {x : Unit {0} × Database}
    → HasValidLinks db
    → find_link_by_local input.org_id input.entity_type input.local_id db ≡ some l
    → (l.qbo_id ≡ none → l.qbo_type ≡ input.qbo_type)
    → l.qbo_id ≡ o
    → check_counterpart input l o db ≡ ok x
    → All
        (λ y. (y.id == l.id) ≡ false → is_qbo_key l.org_id l.qbo_type input.qbo_id y ≡ false)
        db.sync_links
unfolding check_counterpart
free_counterpart input db l (some q) v found typed e h =
    let passed =
      raise_if-passes (not (qbo_code l.qbo_type == qbo_code input.qbo_type && q == input.qbo_id)) _
        db h in
    let same : q ≡ input.qbo_id = ground arith in
    All-map db.sync_links
      (λ y apart differ.
        subst (λ (j : RowId). is_qbo_key l.org_id l.qbo_type j y ≡ false) same
          (subst (λ (o : Option RowId). clash_at o l y ≡ false) e (apart differ)))
      (found-qbo_apart (is_local_key input.org_id input.entity_type input.local_id) db.sync_links l
        (unfold find_link_by_local in found) v.qbo_unique)
free_counterpart input db l none v found typed e h =
    elim (Option-cases (find_link_by_qbo input.org_id input.qbo_type input.qbo_id db)) [
      | inl unclaimed ↦
          unclaimed_free input l db.sync_links (found_key input db l found) (typed e)
            (unfold find_link_by_qbo in unclaimed)
      | inr (m, claimed) ↦ absurd (
          claimed_by_itself input db l m v found e claimed
            (raise_if-passes (not (m.id == l.id)) _ db (rw claimed at h)))
    ]

pub check_counterpart-same :
    (input : UpsertLinkInput) (l : SyncLinkRow) (o : Option RowId) (db : Database)
    {x : Unit {0} × Database}
    → check_counterpart input l o db ≡ ok x
    → db ≡ x.1
unfolding check_counterpart
check_counterpart-same input l (some q) db h = raise_if-same _ _ db h
check_counterpart-same input l none db h = raise_if-same _ _ db h

insert_found-HasValidLinks :
    (input : UpsertLinkInput) (db : Database) {x : SyncLinkRow × Database}
    → HasValidLinks db
    → find_link_by_local input.org_id input.entity_type input.local_id db ≡ none
    → upsert_found input none db ≡ ok x
    → HasValidLinks x.1
unfolding inserted_link find_link_by_local find_link_by_qbo
insert_found-HasValidLinks input db {x} v unfound h =
    let (free, e) =
      raise_if-eq-ok (is_some (find_link_by_qbo input.org_id input.qbo_type input.qbo_id db)) _ _ db
        h in
    let none_there : find_link_by_qbo input.org_id input.qbo_type input.qbo_id db ≡ none =
      is_some-false _ free in
    subst (λ (y : SyncLinkRow × Database). HasValidLinks y.1) (ok-inj e)
      (insert-IsValidLinks (inserted_link input db) db.sync_links db.next_id v refl unfound
        (inr (input.qbo_id, refl, none_there)))

update_found-HasValidLinks :
    (input : UpsertLinkInput) (db : Database) (l : SyncLinkRow) {x : SyncLinkRow × Database}
    → HasValidLinks db
    → find_link_by_local input.org_id input.entity_type input.local_id db ≡ some l
    → (l.qbo_id ≡ none → l.qbo_type ≡ input.qbo_type)
    → upsert_found input (some l) db ≡ ok x
    → HasValidLinks x.1
update_found-HasValidLinks input db l {x} v found typed h =
    let (u, mid, checked, e) = bind-eq-ok (check_counterpart input l l.qbo_id) _ db h in
    let done =
      some_or_raise-same
        (Option.map (updated_link input mid.now) (first (λ m. m.id == l.id) mid.sync_links))
        failed_write
        (record mid {
          sync_links = update (λ m. m.id == l.id) (updated_link input mid.now) mid.sync_links;
        })
        e in
    let free = free_counterpart input db l l.qbo_id v found typed refl checked in
    let only =
      found-IsOnly (is_local_key input.org_id input.entity_type input.local_id) db.sync_links l
        (unfold find_link_by_local in found) v.id_unique in
    let kept = update-IsValidLinks-free input mid.now l db.sync_links free db.next_id only v in
    subst HasValidLinks done (
      subst
        (λ (d : Database).
          IsValidLinks (update (λ m. m.id == l.id) (updated_link input mid.now) d.sync_links)
            d.next_id)
        (check_counterpart-same input l l.qbo_id db checked) kept)

-- From a table that obeys its constraints, a link write that goes through leaves one that does: no
-- two links have the same local record, and no two have the same QBO record. What it asks of the
-- caller is that a link which has no QBO id yet was made for the QBO type that it is now given.
pub upsert_link-HasValidLinks :
    (input : UpsertLinkInput) (db : Database) (row : SyncLinkRow) (out : Database)
    → HasValidLinks db
    → ((l : SyncLinkRow)
        → find_link_by_local input.org_id input.entity_type input.local_id db ≡ some l
        → l.qbo_id ≡ none
        → l.qbo_type ≡ input.qbo_type)
    → upsert_link input db ≡ ok (row, out)
    → HasValidLinks out
unfolding upsert_link
upsert_link-HasValidLinks input db row out v typed h =
    elim (Option-cases (find_link_by_local input.org_id input.entity_type input.local_id db)) [
      | inl unfound ↦ insert_found-HasValidLinks input db v unfound (rw unfound at h)
      | inr (l, found) ↦
          update_found-HasValidLinks input db l v found (typed l found) (rw found at h)
    ]
