-- ===== src/Tests/Resolving.antt =====
-- The held changes of a conflict.
use invoicing_platform.Prelude.{◌≡◌, refl, ℕ, some, [], ◌∷◌, select, List}
use invoicing_platform.Inbound.Guards.{Operation, update_op, delete_op, void_op}
use invoicing_platform.Conflicts.{HeldRow, is_held, recover_conflict_operation}
use invoicing_platform.Conflicts.Recovered.{IsMostFinal, recover-IsMostFinal}

abbrev held : ℕ → Operation → HeldRow
held at operation = record {
  org_id = 1;
  local_id = some 100;
  action = "qbo.inbound.conflict_held";
  created_at = at;
  operation = some operation;
}

-- A delete before the conflict, a void and a later update.
abbrev log : List HeldRow
log = held 10 delete_op ∷ held 30 void_op ∷ held 40 update_op ∷ []

voided_before_update : recover_conflict_operation log 1 100 (some 20) ≡ void_op
unfolding recover_conflict_operation
voided_before_update = refl

recover-IsMostFinal_example :
    IsMostFinal
      (recover_conflict_operation log 1 100 (some 20))
      (select (is_held 1 100 (some 20)) log)
recover-IsMostFinal_example = recover-IsMostFinal log 1 100 (some 20)
