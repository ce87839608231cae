-- ===== src/Tests/Sweeping.antt =====
-- The retry sweep on the small shop.
use invoicing_platform.Prelude.{◌≡◌, true, false, some, [], ◌∷◌, ◌++◌, select, length}
use invoicing_platform.Database.{failed}
use invoicing_platform.Sync.Links.Failures.{find_failed_links_due}
use invoicing_platform.Inbound.Body.{codes}
use invoicing_platform.Outbound.Effects.{World}
use invoicing_platform.Sweep.Query.{escape_qbo_string}
use invoicing_platform.Sweep.Literal.{read_literal, escape_qbo_string-reads}
use invoicing_platform.Sweep.Retry.{run_outbound_retry_sweep}
use invoicing_platform.Sweep.Total.{Counts, Returns, run_outbound_retry_sweep-Counts}
use invoicing_platform.Tests.{link, shop}
use invoicing_platform.Tests.Inbounding.{runtime}
use invoicing_platform.Tests.Pushing.{output, counting}

escape_qbo_string-reads_example :
    read_literal (escape_qbo_string (codes "O'Brien") ++ (39 ∷ codes " OR")) false
    ≡ some (codes "O'Brien", codes " OR")
escape_qbo_string-reads_example = escape_qbo_string-reads (codes "O'Brien") (codes " OR")

-- The shop with a link that failed and is due.
abbrev failed_world : World counting
failed_world = record {
  db = record shop {
    sync_links = record link { state = failed; retry_count = 1; next_retry_at = some 1500 } ∷ [];
  };
  remote = 0;
}

run_outbound_retry_sweep-Counts_example :
    Returns
      (Counts (length (select (λ l. true) (find_failed_links_due 2000 failed_world.db))))
      (run_outbound_retry_sweep runtime output counting (λ org. true) 2000)
      failed_world
run_outbound_retry_sweep-Counts_example =
    run_outbound_retry_sweep-Counts runtime output counting (λ org. true) 2000 failed_world
