-- ===== src/Disposals/Moves.antt =====
-- The moves of one disposal case: what each handler does to the case it is called on, and when.
use asset_it.Prelude.{
  ℕ, Bool, true, false, not, ◌&&◌, ◌==◌, ◌≡◌, some, List, Text, ok, any, find, length, ltb,
}
use asset_it.Store.Rows.{Actor}
use asset_it.Store.DisposalRows.{DisposalStatus, DisposalItem, DisposalEvidence, DisposalCase}
use asset_it.Store.Tables.{Env}
use asset_it.Disposals.Rules.{is_executable, is_final, is_unsanitized, is_verified}
use asset_it.Disposals.Guards.{is_admin, assert_required_evidence}
use asset_it.Disposals.Drafting.{submitted_case}
use asset_it.Disposals.Approval.{approved_case, rejected_case, started_case, cancelled_case}
use asset_it.Disposals.Execution.{
  AddEvidence, evidenced_case, UpdateSanitization, sanitized_case, has_method, is_not_required,
  CompleteDisposal, completed_case,
}

abbrev pub needs_sanitization : List DisposalItem → Bool
needs_sanitization items = any (λ (i : DisposalItem). i.requires_data_sanitization) items

infix 40 ◌⇒◌
pub data ◌⇒◌ : DisposalCase → DisposalCase → Type 0 where
  submits :
      (env : Env) (actor : Actor) (c : DisposalCase)
      → c.status ≡ DisposalStatus.draft
      → ltb (length c.items) 1 ≡ false
      → c ⇒ submitted_case env actor c
  approves :
      (env : Env) (actor : Actor) (note : Text) (c : DisposalCase)
      → is_admin actor.role ≡ true
      → c.status ≡ DisposalStatus.submitted
      → (c.requested_by == actor.id) ≡ false
      → c ⇒ approved_case env actor note c
  rejects :
      (env : Env) (actor : Actor) (note : Text) (c : DisposalCase)
      → is_admin actor.role ≡ true
      → c.status ≡ DisposalStatus.submitted
      → (c.requested_by == actor.id) ≡ false
      → c ⇒ rejected_case env actor note c
  starts :
      (env : Env) (actor : Actor) (note : Text) (c : DisposalCase)
      → c.status ≡ DisposalStatus.approved
      → c ⇒ started_case env actor note c
  adds_evidence :
      (actor : Actor) (body : AddEvidence) (row : DisposalEvidence) (c : DisposalCase)
      → is_executable c.status ≡ true
      → c ⇒ evidenced_case actor body row c
  sanitizes :
      (env : Env) (actor : Actor) (body : UpdateSanitization) (item_id : ℕ) (tag : Text)
      (item : DisposalItem) (c : DisposalCase)
      → is_executable c.status ≡ true
      → find (λ (i : DisposalItem). i.id == item_id) c.items ≡ some item
      → (item.requires_data_sanitization && is_not_required body.status) ≡ false
      → (is_verified body.status && not (has_method body.method)) ≡ false
      → c ⇒ sanitized_case env actor body item_id tag c
  completes :
      (env : Env) (actor : Actor) (body : CompleteDisposal) (c : DisposalCase)
      → c.status ≡ DisposalStatus.in_execution
      → ltb (length c.evidence) 1 ≡ false
      → any is_unsanitized c.items ≡ false
      → assert_required_evidence c.type c.evidence (needs_sanitization c.items) ≡ ok tt
      → c ⇒ completed_case env actor body c
  cancels :
      (env : Env) (actor : Actor) (note : Text) (c : DisposalCase)
      → is_final c.status ≡ false
      → c ⇒ cancelled_case env actor note c
