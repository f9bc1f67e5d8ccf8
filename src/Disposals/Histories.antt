-- ===== src/Disposals/Histories.antt =====
-- The invariants of the disposal cases over whole histories of requests.
use asset_it.Prelude.{
  ℕ, ◌<◌, true, false, ◌==◌, ==_iff, ◌≡◌, ◌∙◌, ap, sym, subst, inl, inr, Option, none, some, List,
  [], ◌∷◌, any, if◌then◌else◌, Bool-cases, arith,
}
use asset_it.Store.Rows.{Actor, Asset}
use asset_it.Store.DisposalRows.{DisposalCase}
use asset_it.Store.Tables.{Env, Db}
use asset_it.Disposals.Guards.{is_active, put_case}
use asset_it.Disposals.Rules.{is_final}
use asset_it.Disposals.Moves.{
  ◌⇒◌, submits, approves, rejects, starts, adds_evidence, sanitizes, completes, cancels,
}
use asset_it.Disposals.Drafts.{Drafted}
use asset_it.Disposals.Soundness.{SoundCase, ⇒-SoundCase}
use asset_it.Disposals.Booking.{Holds, Booking, Booking-Moved, put_case-cases}
use asset_it.Disposals.Calls.{Call, Request, step, run, is_removal}
use asset_it.Disposals.Steps.{step-keeps}

pub record Sound (db : Db) : Type 0 where
  pub case_sound : (k : ℕ) (c : DisposalCase) → db.cases k ≡ some c → SoundCase c

Sound-put :
    (db db' : Db) (id : ℕ) (c : DisposalCase)
    → Sound db
    → db'.cases ≡ put_case db.cases id c
    → SoundCase c
    → Sound db'
Sound-put db db' id c s there new = record {
  case_sound = λ k d found. elim (put_case-cases db db' id k c d there found) [
    | inl here ↦ subst SoundCase here.1 new
    | inr old ↦ s.case_sound k d old.1
  ];
}

-- What is left after a deletion was there before it.
erased-cases :
    (db db' : Db) (id k : ℕ) (d : DisposalCase)
    → db'.cases ≡ (λ j. if j == id then none else db.cases j)
    → db'.cases k ≡ some d
    → db.cases k ≡ some d
erased-cases db db' id k d gone found =
    let at = ap (λ (f : ℕ → Option DisposalCase). f k) gone in ground arith

pub step-Sound :
    (env : Env) (actor : Actor) (call : Call) (db : Db) → Sound db → Sound (step env actor call db)
step-Sound env actor call db s =
    step-keeps Sound db s
      (λ db' id c c' m.
        Sound-put db db' id c' s m.there (⇒-SoundCase m.move (s.case_sound id c m.here)))
      (λ db' row d. Sound-put db db' db.next_id row s d.there d.sound) env actor call
      (λ id is db' c x. record {
        case_sound = λ k d found. s.case_sound k d (erased-cases db db' id k d x.gone found);
      })

-- If every case is sound before, then after any history of requests on disposal cases, deletions
-- included, every case is: a case that is approved, in
-- execution or completed was approved by somebody other than its requester; a completed case has
-- evidence, the documents that its type and its items require, and no item whose required
-- sanitization is not verified; no required sanitization is ever waived.
pub run-Sound : (rs : List Request) (db : Db) → Sound db → Sound (run rs db)
unfolding run
run-Sound [] db s = s
run-Sound (r ∷ rs) db s =
    run-Sound rs (step r.env r.actor r.call db) (step-Sound r.env r.actor r.call db s)

Booking-Drafted : (db db' : Db) (row : DisposalCase) → Booking db → Drafted db db' row → Booking db'
Booking-Drafted db db' row b d =
    let idle : is_active row.status ≡ false = ap is_active d.draft in
    let quiet : (j : ℕ) → ¬ Holds j row = λ j h. let busy = h.0 in ground arith in
    record {
      fresh = λ k c found. elim (put_case-cases db db' db.next_id k row c d.there found) [
        | inl here ↦ omega (arith, here.0, d.grows)
        | inr old ↦ omega (arith, b.fresh k c old.1, d.grows)
      ];
      held = λ k j c found h. elim (put_case-cases db db' db.next_id k row c d.there found) [
        | inl here ↦ absurd (quiet j (rw here.1 h))
        | inr old ↦
            let (x, there, s) = b.held k j c old.1 h in
            (x, ap (λ (f : ℕ → Option Asset). f j) d.same ∙ there, s)
      ];
      exclusive = λ k l j c f at_k at_l h g.
          elim (put_case-cases db db' db.next_id k row c d.there at_k) [
            | inl x ↦ absurd (quiet j (rw x.1 h))
            | inr x ↦ elim (put_case-cases db db' db.next_id l row f d.there at_l) [
              | inl y ↦ absurd (quiet j (rw y.1 g))
              | inr y ↦ b.exclusive k l j c f x.1 y.1 h g
            ]
          ];
    }

pub step-Booking :
    (r : Request) (db : Db)
    → is_removal r ≡ false
    → Booking db
    → Booking (step r.env r.actor r.call db)
step-Booking r db kept b =
    step-keeps Booking db b (λ db' id c c' m. Booking-Moved db db' id c c' b m)
      (λ db' row d. Booking-Drafted db db' row b d) r.env r.actor r.call
      (λ id is db' c x. absurd (ground arith))

-- If it is so before, then after any history of requests on disposal cases without a deletion each asset that a submitted,
-- approved or running case lists is RESERVED, and no other such case lists it.
pub run-Booking :
    (rs : List Request) (db : Db) → any is_removal rs ≡ false → Booking db → Booking (run rs db)
unfolding run
run-Booking [] db kept b = b
run-Booking (r ∷ rs) db kept b =
    run-Booking rs (step r.env r.actor r.call db) (ground arith)
      (step-Booking r db (ground arith) b)

-- No move leaves a final status.
final_move : {c c' : DisposalCase} → c ⇒ c' → is_final c.status ≡ false
final_move (submits env actor c was a) = ap is_final was
final_move (approves env actor note c a was b) = ap is_final was
final_move (rejects env actor note c a was b) = ap is_final was
final_move (starts env actor note c was) = ap is_final was
final_move (adds_evidence actor body row c fits) = ground arith
final_move (sanitizes env actor body item_id tag item c fits a b d) = ground arith
final_move (completes env actor body c was a b d) = ap is_final was
final_move (cancels env actor note c going) = going

-- The case is there as it was.
abbrev Keeps : ℕ → DisposalCase → Db → Type 0
Keeps k c db = (k < db.next_id) × (db.cases k ≡ some c)

step-final :
    (r : Request) (k : ℕ) (c : DisposalCase) (db : Db)
    → is_removal r ≡ false
    → is_final c.status ≡ true
    → Keeps k c db
    → Keeps k c (step r.env r.actor r.call db)
step-final r k c db kept over s =
    step-keeps (Keeps k c) db s
      (λ db' id d d' m. (
        omega (arith, s.0, m.grows),
        (let going = final_move m.move in
            let at = ap (λ (f : ℕ → Option DisposalCase). f k) m.there in
            elim (Bool-cases (k == id)) [
              | inl here ↦
                  let is : some d ≡ some c =
                    sym m.here ∙ ap db.cases (sym ((==_iff k id).0 here)) ∙ s.1 in
                  let same : d ≡ c = ground arith in
                  let ends = ap (λ (x : DisposalCase). is_final x.status) same in
                  absurd (ground arith)
              | inr away ↦ ground (arith, s.1)
            ]),
      ))
      (λ db' row d. (
        omega (arith, s.0, d.grows),
        (let at = ap (λ (f : ℕ → Option DisposalCase). f k) d.there in ground (arith, s.0, s.1)),
      ))
      r.env r.actor r.call (λ id is db' d x. absurd (ground arith))

-- A completed, rejected or cancelled case stays as it is, in every field, through any history of
-- requests without a deletion.
pub run_final :
    (rs : List Request) (k : ℕ) (c : DisposalCase) (db : Db)
    → any is_removal rs ≡ false
    → is_final c.status ≡ true
    → k < db.next_id
    → db.cases k ≡ some c
    → (run rs db).cases k ≡ some c
unfolding run
run_final [] k c db kept over below here = here
run_final (r ∷ rs) k c db kept over below here =
    let s = step-final r k c db (ground arith) over (below, here) in
    run_final rs k c (step r.env r.actor r.call db) (ground arith) over s.0 s.1
