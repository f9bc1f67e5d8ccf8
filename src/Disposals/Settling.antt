-- ===== src/Disposals/Settling.antt =====
-- What the handlers of an approved case do to it and to the assets of its items: `addEvidence`,
-- `updateSanitization`, `complete` and `cancel`.
use asset_it.Prelude.{
  ℕ, true, false, not, ◌&&◌, ◌==◌, ◌≡◌, refl, ap, inl, inr, some, Text, ok, any, find, length, ltb,
  Result-cases, Option-cases, Bool-cases, arith,
}
use asset_it.Store.Enums.{StatusCode}
use asset_it.Store.Rows.{Actor, Asset}
use asset_it.Store.DisposalRows.{DisposalStatus, DisposalItem, DisposalEvidence, DisposalCase}
use asset_it.Store.Tables.{Env, Db}
use asset_it.Disposals.Rules.{is_draft, is_executable, is_unsanitized, is_verified}
use asset_it.Disposals.Guards.{is_active, put_case, save_case, assert_required_evidence}
use asset_it.Disposals.Drafting.{restore_assets}
use asset_it.Disposals.Approval.{cancelled_case, cancel}
use asset_it.Disposals.Execution.{
  AddEvidence, evidenced_case, add_evidence, UpdateSanitization, sanitized_case, has_method,
  is_not_required, update_sanitization, CompleteDisposal, retire_items, completed_case, complete,
}
use asset_it.Disposals.Moves.{adds_evidence, sanitizes, completes, cancels, needs_sanitization}
use asset_it.Disposals.Loops.{Restored, restore_assets-Rewrites, Retired, retire_items-Rewrites}
use asset_it.Disposals.Effects.{Moves, Moves-quiet, Moves-release}

pub add_evidence-Moves :
    (id : ℕ) (body : AddEvidence) (actor : Actor) (db db' : Db) (row : DisposalEvidence)
    → add_evidence id body actor db ≡ ok (row, db')
    → Moves db db' id
unfolding add_evidence
add_evidence-Moves id body actor db db' row e = elim (Option-cases (db.cases id)) [
  | inl none_there ↦ absurd (ground arith)
  | inr (c, here) ↦
      Moves-quiet db db' id c (evidenced_case actor body row c) here
        (adds_evidence actor body row c (ground arith)) (ground arith) (ground arith) (ground arith)
        (λ now. now)
]

sanitize-writes :
    (env : Env) (id item_id : ℕ) (body : UpdateSanitization) (actor : Actor) (db db' : Db)
    → update_sanitization env id item_id body actor db ≡ ok db'
    → (c : DisposalCase) × (item : DisposalItem) × (a : Asset) × (db.cases id ≡ some c)
      × (find (λ (i : DisposalItem). i.id == item_id) c.items ≡ some item)
      × (is_executable c.status ≡ true)
      × ((item.requires_data_sanitization && is_not_required body.status) ≡ false)
      × ((is_verified body.status && not (has_method body.method)) ≡ false)
      × (db' ≡ save_case id (sanitized_case env actor body item_id a.asset_tag c) db)
unfolding update_sanitization
sanitize-writes env id item_id body actor db db' e = elim (Option-cases (db.cases id)) [
  | inl none_there ↦ absurd (ground arith)
  | inr (c, here) ↦ elim (Option-cases (find (λ (i : DisposalItem). i.id == item_id) c.items)) [
    | inl no_item ↦ absurd (ground arith)
    | inr (item, found) ↦ elim (Option-cases (db.asset item.asset_id)) [
      | inl no_asset ↦ absurd (ground arith)
      | inr (a, there) ↦
          (c, item, a, here, found, ground arith, ground arith, ground arith, ground arith)
    ]
  ]
]

pub update_sanitization-Moves :
    (env : Env) (id item_id : ℕ) (body : UpdateSanitization) (actor : Actor) (db db' : Db)
    → update_sanitization env id item_id body actor db ≡ ok db'
    → Moves db db' id
update_sanitization-Moves env id item_id body actor db db' e =
    let (c, item, a, here, found, fits, kept, how, is) =
      sanitize-writes env id item_id body actor db db' e in
    Moves-quiet db db' id c (sanitized_case env actor body item_id a.asset_tag c) here
      (sanitizes env actor body item_id a.asset_tag item c fits found kept how)
      (ap (λ (d : Db). d.cases) is) (omega (arith, ap (λ (d : Db). d.next_id) is))
      (ap (λ (d : Db). d.asset) is) (λ now. now)

pub complete-writes :
    (env : Env) (id : ℕ) (body : CompleteDisposal) (actor : Actor) (db db' : Db)
    → complete env id body actor db ≡ ok db'
    → (c : DisposalCase) × (db₁ : Db) × (db.cases id ≡ some c)
      × (c.status ≡ DisposalStatus.in_execution)
      × (ltb (length c.evidence) 1 ≡ false)
      × (any is_unsanitized c.items ≡ false)
      × (assert_required_evidence c.type c.evidence (needs_sanitization c.items) ≡ ok tt)
      × (retire_items db c body.note actor StatusCode.disposed c.items db ≡ ok db₁)
      × (db'.cases ≡ put_case db₁.cases id (completed_case env actor body c))
      × (db'.next_id ≡ db₁.next_id)
      × (db'.asset ≡ db₁.asset)
unfolding complete
complete-writes env id body actor db db' e = elim (Option-cases (db.cases id)) [
  | inl none_there ↦ absurd (ground arith)
  | inr (c, here) ↦
      elim (Result-cases (retire_items db c body.note actor StatusCode.disposed c.items db)) [
        | inl (db₁, looped) ↦
            elim (Result-cases
              (assert_required_evidence c.type c.evidence (needs_sanitization c.items))) [
                | inl (u, documented) ↦ (
                  c,
                  db₁,
                  here,
                  ground arith,
                  ground arith,
                  ground arith,
                  documented,
                  looped,
                  ground arith,
                  ground arith,
                  ground arith,
                )
                | inr (x, failed) ↦ absurd (ground arith)
              ]
        | inr (x, failed) ↦ absurd (ground arith)
      ]
]

pub complete-Moves :
    (env : Env) (id : ℕ) (body : CompleteDisposal) (actor : Actor) (db db' : Db)
    → complete env id body actor db ≡ ok db'
    → Moves db db' id
complete-Moves env id body actor db db' e =
    let (c, db₁, here, was, some_evidence, clean, documented, looped, cases, next, assets) =
      complete-writes env id body actor db db' e in
    Moves-release (Retired StatusCode.disposed) db db₁ db' id c (completed_case env actor body c)
      here (completes env actor body c was some_evidence clean documented)
      (retire_items-Rewrites db c body.note actor StatusCode.disposed c.items db db₁ looped) cases
      next assets (ap is_active was) refl

pub cancel-Moves :
    (env : Env) (id : ℕ) (note : Text) (actor : Actor) (db db' : Db)
    → cancel env id note actor db ≡ ok db'
    → Moves db db' id
unfolding cancel
cancel-Moves env id note actor db db' e = elim (Option-cases (db.cases id)) [
  | inl none_there ↦ absurd (ground arith)
  | inr (c, here) ↦ elim (Bool-cases (is_draft c.status)) [
    | inl draft_case ↦
        Moves-quiet db db' id c (cancelled_case env actor note c) here
          (cancels env actor note c (ground arith)) (ground arith) (ground arith) (ground arith)
          (λ now. absurd (ground arith))
    | inr beyond ↦ elim (Result-cases (restore_assets env db c.items db)) [
      | inl (db₁, looped) ↦
          Moves-release Restored db db₁ db' id c (cancelled_case env actor note c) here
            (cancels env actor note c (ground arith))
            (restore_assets-Rewrites env db c.items db db₁ looped) (ground arith) (ground arith)
            (ground arith) (ground arith) refl
      | inr (x, failed) ↦ absurd (ground arith)
    ]
  ]
]
