-- ===== src/Renewals/Histories.antt =====
-- Histories of the two requests on seats: one that throws leaves the tables as they were.
use asset_it.Prelude.{
  ℕ, ◌+◌, ◌≤◌, true, false, ◌==◌, ==_iff, ◌≡◌, refl, ap, sym, ◌∙◌, subst, some, List, [], ◌∷◌, map,
  Text, ok, err, Option-cases, Bool-cases, inl, inr, arith,
}
use asset_it.Store.Rows.{Actor}
use asset_it.Store.Tables.{Env}
use asset_it.Store.Exceptions.{Outcome}
use asset_it.Renewals.Rows.{DigitalEntitlement, DigitalAssignment, Licences}
use asset_it.Renewals.Seats.{
  AssignEntitlement, is_manager_role, recipients, is_external, is_licence, in_force, used,
  has_seats, recipient_exists, assign, write_assignment, revoke_if, revoke, write_revocation,
}

pub data Call : Type 0 where
  assigns : ℕ → AssignEntitlement → Call
  revokes : ℕ → Text → Call

pub record Request : Type 0 where
  pub env : Env
  pub actor : Actor
  pub call : Call

abbrev pub settled : Licences → Outcome Licences → Licences
settled l (ok l') = l'
settled l (err x) = l

abbrev pub settled_with : {A : Type 0} → Licences → Outcome (A × Licences) → Licences
settled_with l (ok (a, l')) = l'
settled_with l (err x) = l

unfoldable pub step : Request → Licences → Licences
step r l = elim r.call [
  | assigns k body ↦ settled_with l (assign k body r.actor l)
  | revokes id reason ↦ settled l (revoke r.env id reason r.actor l)
]

unfoldable pub run : List Request → Licences → Licences
unfolding step
run [] l = l
run (r ∷ rs) l = run rs (step r l)

-- No licence has more seats in use than it has.
pub record WithinSeats (l : Licences) : Type 0 where
  pub fits :
      (k : ℕ) (e : DigitalEntitlement)
      → l.entitlement k ≡ some e
      → used k l.assignments ≤ e.total_quantity

used-revoke :
    (k id now : ℕ) (actor : Actor) (reason : Text) (rows : List DigitalAssignment)
    → used k (map (revoke_if id now actor reason) rows) ≤ used k rows
unfolding used
used-revoke k id now actor reason [] = omega arith
used-revoke k id now actor reason (r ∷ rest) =
    let later = used-revoke k id now actor reason rest in
    elim (Bool-cases (r.id == id)) [ inl hit ↦ ground arith | inr miss ↦ ground arith ]

-- The conditions of a handout, for the licence `e`.
pub record MayAssign (k : ℕ) (e : DigitalEntitlement) (body : AssignEntitlement) (actor : Actor)
    (l : Licences) : Type 0 where
  pub manager : is_manager_role actor.role ≡ true
  pub one : recipients body ≡ 1
  pub here : l.entitlement k ≡ some e
  pub own : is_external e.external_provider ≡ false
  pub licence : is_licence e.type ≡ true
  pub valid : in_force e.status ≡ true
  pub alone : has_seats k body l.assignments ≡ false
  pub known : recipient_exists l body ≡ true

assign-writes :
    (k : ℕ) (body : AssignEntitlement) (actor : Actor) (l l' : Licences) (row : DigitalAssignment)
    → assign k body actor l ≡ ok (row, l')
    → (e : DigitalEntitlement) × MayAssign k e body actor l
      × (used k l.assignments + body.quantity ≤ e.total_quantity)
      × (write_assignment k body actor l ≡ (row, l'))
unfolding assign
assign-writes k body actor l l' row granted = elim (Option-cases (l.entitlement k)) [
  | inl absent ↦ absurd (ground arith)
  | inr (e, here) ↦ (
    e,
    record {
      manager = ground arith;
      one = ground arith;
      here = here;
      own = ground arith;
      licence = ground arith;
      valid = ground arith;
      alone = ground arith;
      known = ground arith;
    },
    ground arith,
    ground arith,
  )
]

write_assignment-WithinSeats :
    (k : ℕ) (e : DigitalEntitlement) (body : AssignEntitlement) (actor : Actor) (l : Licences)
    → l.entitlement k ≡ some e
    → used k l.assignments + body.quantity ≤ e.total_quantity
    → WithinSeats l
    → WithinSeats (write_assignment k body actor l).1
unfolding write_assignment used
write_assignment-WithinSeats k e body actor l here room w = record {
  fits = λ j item found.
      let old = w.fits j item found in
      elim (Bool-cases (k == j)) [
        | inr away ↦ ground arith
        | inl same ↦
            let equal = (==_iff k j).0 same in
            let own = sym here ∙ ap l.entitlement equal ∙ found in
            let now =
              subst (λ n. used n l.assignments + body.quantity ≤ e.total_quantity) equal room in
            ground arith
      ];
}

assign-WithinSeats :
    (k : ℕ) (body : AssignEntitlement) (actor : Actor) (l l' : Licences) (row : DigitalAssignment)
    → WithinSeats l
    → assign k body actor l ≡ ok (row, l')
    → WithinSeats l'
assign-WithinSeats k body actor l l' row w granted =
    let (e, may, room, wrote) = assign-writes k body actor l l' row granted in
    subst (λ (x : DigitalAssignment × Licences). WithinSeats x.1) wrote
      (write_assignment-WithinSeats k e body actor l may.here room w)

write_revocation-WithinSeats :
    (env : Env) (id : ℕ) (reason : Text) (actor : Actor) (l : Licences)
    → WithinSeats l
    → WithinSeats (write_revocation env id reason actor l)
unfolding write_revocation
write_revocation-WithinSeats env id reason actor l w = record {
  fits = λ j item found.
      omega (arith, used-revoke j id env.now actor reason l.assignments, w.fits j item found);
}

revoke-writes :
    (env : Env) (id : ℕ) (reason : Text) (actor : Actor) (l l' : Licences)
    → revoke env id reason actor l ≡ ok l'
    → write_revocation env id reason actor l ≡ l'
unfolding revoke
revoke-writes env id reason actor l l' granted = ground arith

module _ (l : Licences) (w : WithinSeats l) where
  settled_with_lem :
      (m : Outcome (DigitalAssignment × Licences))
      → ((row : DigitalAssignment) (l' : Licences) → m ≡ ok (row, l') → WithinSeats l')
      → WithinSeats (settled_with l m)
  settled_with_lem (ok (row, l')) f = f row l' refl
  settled_with_lem (err x) f = w

  settled_lem :
      (m : Outcome Licences)
      → ((l' : Licences) → m ≡ ok l' → WithinSeats l')
      → WithinSeats (settled l m)
  settled_lem (ok l') f = f l' refl
  settled_lem (err x) f = w

  call-WithinSeats :
      (env : Env) (actor : Actor) (call : Call)
      → WithinSeats (step (record { env = env; actor = actor; call = call }) l)
  unfolding step
  call-WithinSeats env actor (assigns k body) =
      settled_with_lem (assign k body actor l)
        (λ row l' e. assign-WithinSeats k body actor l l' row w e)
  call-WithinSeats env actor (revokes id reason) =
      settled_lem (revoke env id reason actor l) (λ l' e.
        subst WithinSeats (revoke-writes env id reason actor l l' e)
          (write_revocation-WithinSeats env id reason actor l w))

step-WithinSeats : (r : Request) (l : Licences) → WithinSeats l → WithinSeats (step r l)
step-WithinSeats r l w = call-WithinSeats l w r.env r.actor r.call

-- If it is so before, then after any history of handing out and revoking seats no licence has more
-- seats in use than its total quantity.
pub run-WithinSeats : (rs : List Request) (l : Licences) → WithinSeats l → WithinSeats (run rs l)
unfolding run
run-WithinSeats [] l w = w
run-WithinSeats (r ∷ rs) l w = run-WithinSeats rs (step r l) (step-WithinSeats r l w)
