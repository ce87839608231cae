-- ===== src/Sweep/Groups.antt =====
-- The organisations of the due links: each link is in the group of exactly one of them.
use invoicing_platform.Prelude.{
  ℕ, ◌+◌, ◌≡◌, sym, inl, inr, refl, ap, Bool, true, false, Bool-cases, List, [], ◌∷◌, select,
  length, ◌==◌, ==_iff, arith, All, if◌then◌else◌,
}
use invoicing_platform.Prelude.Unique.{All-map}
use invoicing_platform.Database.{RowId, SyncLinkRow}
use invoicing_platform.Inbound.Body.{JsRuntime}
use invoicing_platform.Outbound.Builders.{JsOutput}
use invoicing_platform.Outbound.Effects.{QboClient}
use invoicing_platform.Sweep.Retry.{has_org, orgs_of}

-- How often an organisation is in a list.
abbrev occurrences : RowId → List RowId → ℕ
occurrences org [] = 0
occurrences org (o ∷ os) = (if org == o then 1 else 0) + occurrences org os

abbrev has_link : RowId → List SyncLinkRow → Bool
has_link org [] = false
has_link org (l ∷ ls) = if l.org_id == org then true else has_link org ls

-- The links that are tried: in each group, all or none.
abbrev pub group_size : (RowId → Bool) → List SyncLinkRow → RowId → ℕ
group_size connected due org =
    if connected org then length (select (λ l. l.org_id == org) due) else 0

abbrev pub tried : (RowId → Bool) → List SyncLinkRow → List RowId → ℕ
tried connected due [] = 0
tried connected due (org ∷ orgs) = group_size connected due org + tried connected due orgs

==-sym : (a b : ℕ) → (a == b) ≡ (b == a)
==-sym a b = ground arith

module _ (connected : RowId → Bool) where
  tried-nil : (orgs : List RowId) → tried connected [] orgs ≡ 0
  tried-nil [] = refl
  tried-nil (org ∷ orgs) = elim (Bool-cases (connected org)) [
    | inl e ↦ rw e (omega (arith, tried-nil orgs))
    | inr e ↦ rw e (omega (arith, tried-nil orgs))
  ]

  -- What a link adds to the number of tries.
  abbrev weight : SyncLinkRow → ℕ → ℕ
  weight l n = if connected l.org_id then n else 0

  group_size-cons :
      (l : SyncLinkRow) (due : List SyncLinkRow) (org : RowId)
      → group_size connected (l ∷ due) org
        ≡ weight l (if l.org_id == org then 1 else 0) + group_size connected due org
  group_size-cons l due org = elim (Bool-cases (l.org_id == org)) [
    | inl e ↦
        let same : connected org ≡ connected l.org_id =
          ap connected (sym ((==_iff l.org_id org).0 e)) in
        elim (Bool-cases (connected l.org_id)) [
          | inl c ↦ rw (e, same, c) (omega arith)
          | inr c ↦ rw (e, same, c) (omega arith)
        ]
    | inr e ↦ elim (Bool-cases (connected l.org_id)) [
      | inl c ↦ rw (e, c) (omega arith)
      | inr c ↦ rw (e, c) (omega arith)
    ]
  ]

  tried-cons :
      (l : SyncLinkRow) (due : List SyncLinkRow) (orgs : List RowId)
      → tried connected (l ∷ due) orgs
        ≡ weight l (occurrences l.org_id orgs) + tried connected due orgs
  tried-cons l due [] = ground arith
  tried-cons l due (org ∷ orgs) =
      let first = group_size-cons l due org in
      let rest = tried-cons l due orgs in
      elim (Bool-cases (connected l.org_id)) [
        | inl c ↦ let first' = rw c at first in let rest' = rw c at rest in rw c (omega arith)
        | inr c ↦ let first' = rw c at first in let rest' = rw c at rest in rw c (omega arith)
      ]

  each_once :
      (due : List SyncLinkRow) (orgs : List RowId)
      → All (λ l. occurrences l.org_id orgs ≡ 1) due
      → tried connected due orgs ≡ length (select (λ l. connected l.org_id) due)
  each_once [] orgs h = tried-nil orgs
  each_once (l ∷ due) orgs h =
      let rest = each_once due orgs h.1 in
      let step = tried-cons l due orgs in
      elim (Bool-cases (connected l.org_id)) [
        | inl c ↦ let step' = rw c at step in rw c (omega (arith, h.0))
        | inr c ↦ let step' = rw c at step in rw c (omega (arith, h.0))
      ]

more :
    (l : SyncLinkRow) (org : RowId) (ls : List SyncLinkRow)
    → has_link org ls ≡ true
    → has_link org (l ∷ ls) ≡ true
more l org ls k = elim (Bool-cases (l.org_id == org)) [ inl e ↦ rw e refl | inr e ↦ rw e k ]

module _ (js : JsRuntime) (out : JsOutput) (q : QboClient) where
  seen-occurrences :
      (org : RowId) (seen : List RowId) (ls : List SyncLinkRow)
      → has_org js out q org seen ≡ true
      → occurrences org (orgs_of js out q seen ls) ≡ 0
  seen-occurrences org seen [] h = refl
  seen-occurrences org seen (l ∷ ls) h = elim (Bool-cases (has_org js out q l.org_id seen)) [
    | inl e ↦ rw e (seen-occurrences org seen ls h)
    | inr e ↦ elim (Bool-cases (org == l.org_id)) [
      | inl same ↦ absurd (cc (rw (sym ((==_iff org l.org_id).0 same)) at e, h))
      | inr differs ↦
          rw (e, differs)
            (omega (
              arith,
              seen-occurrences org (l.org_id ∷ seen) ls (rw (==-sym l.org_id org, differs) h),
            ))
    ]
  ]

  new-occurrences :
      (org : RowId) (seen : List RowId) (ls : List SyncLinkRow)
      → has_org js out q org seen ≡ false
      → has_link org ls ≡ true
      → occurrences org (orgs_of js out q seen ls) ≡ 1
  new-occurrences org seen [] h k = absurd (cc)
  new-occurrences org seen (l ∷ ls) h k = elim (Bool-cases (l.org_id == org)) [
    | inl same ↦
        let e = (==_iff l.org_id org).0 same in
        rw (e, h, (==_iff org org).1 refl)
          (omega (arith, seen-occurrences org (org ∷ seen) ls (rw ((==_iff org org).1 refl) refl)))
    | inr differs ↦ elim (Bool-cases (has_org js out q l.org_id seen)) [
      | inl e ↦ rw e (new-occurrences org seen ls h (rw differs at k))
      | inr e ↦
          rw (e, ==-sym org l.org_id, differs)
            (omega
              (arith, new-occurrences org (l.org_id ∷ seen) ls (rw differs h) (rw differs at k)))
    ]
  ]

  -- The groups hold each link once.
  pub tried-all :
      (connected : RowId → Bool) (due : List SyncLinkRow)
      → tried connected due (orgs_of js out q [] due)
        ≡ length (select (λ l. connected l.org_id) due)
  tried-all connected due =
      each_once connected due (orgs_of js out q [] due)
        (All-map due (λ l h. new-occurrences l.org_id [] due refl h) (own due (λ org h. h)))
    where
      own :
          (ls : List SyncLinkRow)
          → ((org : RowId) → has_link org ls ≡ true → has_link org due ≡ true)
          → All (λ l. has_link l.org_id due ≡ true) ls
      own [] h = tt
      own (l ∷ ls) h = (
        h l.org_id (rw ((==_iff l.org_id l.org_id).1 refl) refl),
        own ls (λ org k. h org (more l org ls k)),
      )
