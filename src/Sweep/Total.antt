-- ===== src/Sweep/Total.antt =====
-- The sweep never throws, whatever QBO and the database make of each retry, and tries every link it should.
use invoicing_platform.Prelude.{
  ℕ, ◌+◌, ◌≡◌, inl, inr, refl, Bool, true, false, if◌then◌else◌, List, [], ◌∷◌, select, ◌==◌, arith,
  length,
}
use invoicing_platform.Database.{RowId, SyncLinkRow, ok}
use invoicing_platform.Sync.Links.{find_link_by_local}
use invoicing_platform.Sync.Links.Failures.{find_failed_links_due}
use invoicing_platform.Inbound.Body.{JsRuntime}
use invoicing_platform.Outbound.Builders.{JsOutput}
use invoicing_platform.Outbound.Effects.{QboClient, World, Eff, done}
use invoicing_platform.Outbound.Once.{Effect-cases}
use invoicing_platform.Sweep.Groups.{group_size, tried, tried-all}
use invoicing_platform.Sweep.Retry.{
  RetryOutcome, succeeded, failed_again, exhausted, cleared, RetrySweepSummary, outcome_of,
  retry_link, retry_one_failed_link, count, retry_links, orgs_of, retry_orgs,
  run_outbound_retry_sweep,
}

-- The summary of `n` tries, each with one outcome.
abbrev pub Counts : ℕ → RetrySweepSummary → Type 0
Counts n s = (s.retried ≡ n) × (s.retried ≡ s.succeeded + s.failed + s.terminal + s.cleared)

-- The step goes through with a result that has the property.
abbrev pub Returns : {q : QboClient} {A : Type 0} → (A → Type 0) → Eff q A → World q → Type 0
Returns {q} {A} P m w = (a : A) × (w' : World q) × (m w ≡ (ok a, w')) × P a

module _ (js : JsRuntime) (out : JsOutput) (q : QboClient) where
  abbrev outcome_at : SyncLinkRow → World q → RetryOutcome
  outcome_at link w =
      outcome_of js out q (find_link_by_local link.org_id link.entity_type link.local_id w.db)

  retry_one-Returns :
      (link : SyncLinkRow) (w : World q)
      → Returns (λ o. Unit {0}) (retry_one_failed_link js out q link) w
  unfolding retry_one_failed_link
  retry_one-Returns link w = elim (Effect-cases (retry_link js out q link.entity_type link w)) [
    | inl (e, w', h) ↦ (outcome_at link w', w', rw h refl, tt)
    | inr (u, w', h) ↦ (outcome_at link w', w', rw h refl, tt)
  ]

  count-Counts :
      (n : ℕ) (o : RetryOutcome) (s : RetrySweepSummary)
      → Counts n s
      → Counts (n + 1) (count js out q o s)
  count-Counts n succeeded s h = ground arith
  count-Counts n failed_again s h = ground arith
  count-Counts n exhausted s h = ground arith
  count-Counts n cleared s h = ground arith

  retry_links-Returns :
      (ls : List SyncLinkRow) (n : ℕ) (s : RetrySweepSummary) (w : World q)
      → Counts n s
      → Returns (Counts (n + length ls)) (retry_links js out q ls s) w
  unfolding retry_links
  retry_links-Returns [] n s w h = (s, w, refl, ground arith)
  retry_links-Returns (l ∷ ls) n s w h =
      let (o, w1, e, u) = retry_one-Returns l w in
      let (s', w', e', h') =
        retry_links-Returns ls (n + 1) (count js out q o s) w1 (count-Counts n o s h) in
      (s', w', rw e e', ground arith)

  org-Returns :
      (b : Bool) (ls : List SyncLinkRow) (n : ℕ) (s : RetrySweepSummary) (w : World q)
      → Counts n s
      → Returns
          (Counts (n + (if b then length ls else 0)))
          (if b then retry_links js out q ls s else done s)
          w
  org-Returns true ls n s w h = retry_links-Returns ls n s w h
  org-Returns false ls n s w h = (s, w, refl, ground arith)

  retry_orgs-Returns :
      (connected : RowId → Bool) (due : List SyncLinkRow) (orgs : List RowId) (n : ℕ)
      (s : RetrySweepSummary) (w : World q)
      → Counts n s
      → Returns (Counts (n + tried connected due orgs)) (retry_orgs js out q connected due orgs s) w
  unfolding retry_orgs
  retry_orgs-Returns connected due [] n s w h = (s, w, refl, ground arith)
  retry_orgs-Returns connected due (org ∷ orgs) n s w h =
      let group = select (λ l. l.org_id == org) due in
      let (s1, w1, e, h1) = org-Returns (connected org) group n s w h in
      let (s', w', e', h') =
        retry_orgs-Returns connected due orgs (n + group_size connected due org) s1 w1 h1 in
      (s', w', rw e e', ground arith)

  -- The sweep goes through whatever QBO answers and whatever each retry throws. It tries as many links as
  -- are due and belong to an organisation with a connection, and counts each try under one outcome: the
  -- retries are that number, and the sum of the successes, failures, terminal failures and cleared links.
  pub run_outbound_retry_sweep-Counts :
      (connected : RowId → Bool) (now : ℕ) (w : World q)
      → Returns
          (Counts (length (select (λ l. connected l.org_id) (find_failed_links_due now w.db))))
          (run_outbound_retry_sweep js out q connected now)
          w
  unfolding run_outbound_retry_sweep
  run_outbound_retry_sweep-Counts connected now w =
      let due = find_failed_links_due now w.db in
      let (s, w', e, counts) =
        retry_orgs-Returns connected due (orgs_of js out q [] due) 0
          (record { retried = 0; succeeded = 0; failed = 0; terminal = 0; cleared = 0 }) w
          (refl, refl) in
      (s, w', e, (omega (arith, counts.0, tried-all js out q connected due), counts.1))
