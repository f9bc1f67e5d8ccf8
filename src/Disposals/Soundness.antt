-- ===== src/Disposals/Soundness.antt =====
-- What holds of every disposal case: who approved it is not who asked for it, and a completed case
-- has its evidence and its sanitization.
use asset_it.Prelude.{
  ℕ, suc, ◌≤◌, ◌<◌, Bool, true, false, ◌&&◌, ◌==◌, ◌≡◌, refl, some, List, [], ◌∷◌, map, ok, any,
  find, length, ltb, Bool-cases, inl, inr, arith,
}
use asset_it.Store.Rows.{Actor}
use asset_it.Store.DisposalRows.{DisposalStatus, DisposalItem, DisposalCase}
use asset_it.Store.Tables.{Env}
use asset_it.Disposals.Rules.{is_unsanitized}
use asset_it.Disposals.Guards.{assert_required_evidence}
use asset_it.Disposals.Execution.{UpdateSanitization, sanitize_item, is_not_required}
use asset_it.Disposals.Moves.{
  ◌⇒◌, submits, approves, rejects, starts, adds_evidence, sanitizes, completes, cancels,
  needs_sanitization,
}

-- The case has been approved and is not called off.
abbrev pub is_past_approval : DisposalStatus → Bool
is_past_approval DisposalStatus.approved = true
is_past_approval DisposalStatus.in_execution = true
is_past_approval DisposalStatus.completed = true
is_past_approval _ = false

abbrev pub is_waived : DisposalItem → Bool
is_waived i = i.requires_data_sanitization && is_not_required i.sanitization_status

-- Item identifiers ascend from `n` on.
abbrev pub Ascends : ℕ → List DisposalItem → Type 0
Ascends n [] = Unit
Ascends n (i ∷ rest) = (n ≤ i.id) × Ascends (suc i.id) rest

pub record Documented (c : DisposalCase) : Type 0 where
  pub some_evidence : ltb (length c.evidence) 1 ≡ false
  pub clean : any is_unsanitized c.items ≡ false
  pub required : assert_required_evidence c.type c.evidence (needs_sanitization c.items) ≡ ok tt

pub record SoundCase (c : DisposalCase) : Type 0 where
  pub separated :
      is_past_approval c.status ≡ true
      → (p : ℕ) × (c.approved_by ≡ some p) × ((c.requested_by == p) ≡ false)
  pub documented : c.status ≡ DisposalStatus.completed → Documented c
  pub unwaived : any is_waived c.items ≡ false
  pub numbered : Ascends 0 c.items

module _ (env : Env) (actor : Actor) (body : UpdateSanitization) (item_id : ℕ) where
  sanitize-Ascends :
      (n : ℕ) (items : List DisposalItem)
      → Ascends n items
      → Ascends n (map (sanitize_item env actor body item_id) items)
  sanitize-Ascends n [] h = tt
  sanitize-Ascends n (i ∷ rest) h =
      let same : (sanitize_item env actor body item_id i).id ≡ i.id = ground arith in
      rw same (h.0, sanitize-Ascends (suc i.id) rest h.1)

  sanitize-beyond :
      (n : ℕ) (items : List DisposalItem)
      → item_id < n
      → Ascends n items
      → map (sanitize_item env actor body item_id) items ≡ items
  sanitize-beyond n [] below h = refl
  sanitize-beyond n (i ∷ rest) below h =
      let later = sanitize-beyond (suc i.id) rest (omega (arith, h.0)) h.1 in ground arith

  sanitize-unwaived :
      (n : ℕ) (item : DisposalItem) (items : List DisposalItem)
      → Ascends n items
      → find (λ (i : DisposalItem). i.id == item_id) items ≡ some item
      → (item.requires_data_sanitization && is_not_required body.status) ≡ false
      → any is_waived items ≡ false
      → any is_waived (map (sanitize_item env actor body item_id) items) ≡ false
  sanitize-unwaived n item [] asc found kept h = refl
  sanitize-unwaived n item (i ∷ rest) asc found kept h = elim (Bool-cases (i.id == item_id)) [
    | inl here ↦ let alone = sanitize-beyond (suc i.id) rest (ground arith) asc.1 in ground arith
    | inr away ↦
        let later =
          sanitize-unwaived (suc i.id) item rest asc.1 (ground arith) kept (ground arith) in
        ground arith
  ]

pub ⇒-SoundCase : {c c' : DisposalCase} → c ⇒ c' → SoundCase c → SoundCase c'
⇒-SoundCase (submits env actor c was some_items) s = record {
  separated = λ h. absurd (ground arith);
  documented = λ h. absurd (ground arith);
  unwaived = s.unwaived;
  numbered = s.numbered;
}
⇒-SoundCase (approves env actor note c boss was other) s = record {
  separated = λ h. (actor.id, refl, other);
  documented = λ h. absurd (ground arith);
  unwaived = s.unwaived;
  numbered = s.numbered;
}
⇒-SoundCase (rejects env actor note c boss was other) s = record {
  separated = λ h. absurd (ground arith);
  documented = λ h. absurd (ground arith);
  unwaived = s.unwaived;
  numbered = s.numbered;
}
⇒-SoundCase (starts env actor note c was) s = record {
  separated = λ h. s.separated (ground arith);
  documented = λ h. absurd (ground arith);
  unwaived = s.unwaived;
  numbered = s.numbered;
}
⇒-SoundCase (adds_evidence actor body row c fits) s = record {
  separated = s.separated;
  documented = λ h. absurd (ground arith);
  unwaived = s.unwaived;
  numbered = s.numbered;
}
⇒-SoundCase (sanitizes env actor body item_id tag item c fits found kept how) s = record {
  separated = s.separated;
  documented = λ h. absurd (ground arith);
  unwaived =
      sanitize-unwaived env actor body item_id 0 item c.items s.numbered found kept s.unwaived;
  numbered = sanitize-Ascends env actor body item_id 0 c.items s.numbered;
}
⇒-SoundCase (completes env actor body c was some_evidence clean required) s = record {
  separated = λ h. s.separated (ground arith);
  documented = λ h. record { some_evidence = some_evidence; clean = clean; required = required };
  unwaived = s.unwaived;
  numbered = s.numbered;
}
⇒-SoundCase (cancels env actor note c open_) s = record {
  separated = λ h. absurd (ground arith);
  documented = λ h. absurd (ground arith);
  unwaived = s.unwaived;
  numbered = s.numbered;
}
