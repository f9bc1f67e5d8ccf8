-- ===== src/Disposals/Guards.antt =====
-- The private helpers of `DisposalsService` (apps/api/src/modules/disposals/disposals.service.ts).
use asset_it.Prelude.{
  ℕ, Bool, true, false, not, ◌&&◌, ◌==◌, Option, none, some, List, Text, text_eq, Result, ok, err,
  throw_if, or_throw, ◌>>◌, any, any_below, if◌then◌else◌,
}
use asset_it.Store.Enums.{Role, admin, it, StatusCode}
use asset_it.Store.Rows.{Actor, Asset}
use asset_it.Store.DisposalRows.{
  DisposalStatus, DisposalType, EvidenceType, DisposalItem, DisposalEvidence, DisposalActivity,
  DisposalCase,
}
use asset_it.Store.Exceptions.{
  DisposalRuleError, Outcome, forbidden, bad_request, not_found, conflict, record_missing,
  disposal_rule, disposal_manager_required, approver_required, case_not_found, status_missing,
  erasure_certificate_required, destruction_certificate_required, sale_document_required,
  handover_minutes_required,
}
use asset_it.Store.Tables.{Env, Db}

abbrev pub is_manager : Role → Bool
is_manager admin = true
is_manager it = true
is_manager _ = false

abbrev pub is_admin : Role → Bool
is_admin admin = true
is_admin _ = false

-- `authorize(actor, adminOnly)`
unfoldable pub authorize : Actor → Bool → Outcome (Unit {0})
authorize actor admin_only = do
  throw_if (not (is_manager actor.role)) (forbidden disposal_manager_required)
  throw_if (admin_only && not (is_admin actor.role)) (forbidden approver_required)

-- `this.rule(action)`
abbrev pub apply_rule : Result DisposalRuleError (Unit {0}) → Outcome (Unit {0})
apply_rule (ok u) = ok u
apply_rule (err e) = err (bad_request (disposal_rule e))

-- `this.record(id)`
abbrev pub find_case : Db → ℕ → Outcome DisposalCase
find_case db k = or_throw (db.cases k) (not_found case_not_found)

-- `item.asset`, which is there by its foreign key
abbrev pub item_asset : Db → DisposalItem → Outcome Asset
item_asset db i = or_throw (db.asset i.asset_id) record_missing

-- `this.status(tx, code)`
abbrev pub case_status : Env → StatusCode → Outcome StatusCode
case_status env code = elim (env.has_status code) [
  | true ↦ ok code
  | false ↦ err (conflict (status_missing code))
]

abbrev pub put_case : (ℕ → Option DisposalCase) → ℕ → DisposalCase → ℕ → Option DisposalCase
put_case f k c j = if j == k then some c else f j

-- `tx.disposalCase.update({ where: { id }, data })` on the case that was read, with the activity row
-- that every such update is followed by.
abbrev pub save_case : ℕ → DisposalCase → Db → Db
save_case k c db = record db { cases = put_case db.cases k c }

abbrev pub activity : Actor → Text → Text → DisposalActivity
activity actor action note = record { actor_id = actor.id; action = action; note = some note }

-- `activeStatuses`
abbrev pub is_active : DisposalStatus → Bool
is_active DisposalStatus.submitted = true
is_active DisposalStatus.approved = true
is_active DisposalStatus.in_execution = true
is_active _ = false

abbrev pub has_asset : ℕ → List DisposalItem → Bool
has_asset a items = any (λ (i : DisposalItem). i.asset_id == a) items

abbrev pub holds : ℕ → Option DisposalCase → Bool
holds a none = false
holds a (some c) = is_active c.status && has_asset a c.items

-- A case other than `k` that is active and has the asset. Every case has an identifier below
-- `next_id`, so the query looks at those.
unfoldable pub held_elsewhere : Db → ℕ → ℕ → Bool
held_elsewhere db k a = any_below db.next_id (λ j. not (j == k) && holds a (db.cases j))

-- The same for any case.
unfoldable pub held_anywhere : Db → ℕ → Bool
held_anywhere db a = any_below db.next_id (λ j. holds a (db.cases j))

abbrev pub is_numbered : Text → Option DisposalCase → Bool
is_numbered n none = false
is_numbered n (some c) = text_eq c.disposal_no n

-- The unique key `disposalNo` has the value.
pub number_taken : Db → Text → Bool
number_taken db n = any_below db.next_id (λ j. is_numbered n (db.cases j))

abbrev pub has_evidence : (EvidenceType → Bool) → List DisposalEvidence → Bool
has_evidence p evidence = any (λ (e : DisposalEvidence). p e.type) evidence

abbrev pub is_erasure : EvidenceType → Bool
is_erasure EvidenceType.data_erasure_certificate = true
is_erasure _ = false

abbrev pub is_destruction : EvidenceType → Bool
is_destruction EvidenceType.destruction_certificate = true
is_destruction _ = false

abbrev pub is_contract : EvidenceType → Bool
is_contract EvidenceType.sale_contract = true
is_contract _ = false

abbrev pub is_minutes : EvidenceType → Bool
is_minutes EvidenceType.handover_minutes = true
is_minutes _ = false

-- The conditions on the type of the case, and what `handoverTypes` lists.
unfoldable pub assert_type_evidence : DisposalType → List DisposalEvidence → Outcome (Unit {0})
assert_type_evidence DisposalType.destruction evidence =
    throw_if (not (has_evidence is_destruction evidence))
      (bad_request destruction_certificate_required)
assert_type_evidence DisposalType.sale evidence =
    throw_if (not (has_evidence is_contract evidence) && not (has_evidence is_minutes evidence))
      (bad_request sale_document_required)
assert_type_evidence DisposalType.other evidence = ok tt
assert_type_evidence _ evidence =
    throw_if (not (has_evidence is_minutes evidence)) (bad_request handover_minutes_required)

unfoldable pub assert_required_evidence :
    DisposalType → List DisposalEvidence → Bool → Outcome (Unit {0})
unfolding assert_type_evidence
assert_required_evidence type evidence requires_sanitization = do
  throw_if (requires_sanitization && not (has_evidence is_erasure evidence))
      (bad_request erasure_certificate_required)
  assert_type_evidence type evidence
