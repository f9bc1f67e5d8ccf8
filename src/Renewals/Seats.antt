-- ===== src/Renewals/Seats.antt =====
-- `assign` and `revoke` of `RenewalsService`
-- (apps/api/src/modules/renewals/renewals.service.ts).
use asset_it.Prelude.{
  ℕ, suc, ◌+◌, ◌-◌, Bool, true, false, not, ◌&&◌, ◌||◌, ◌==◌, ltb, Option, none, some, List, [],
  ◌∷◌, ◌++◌, map, find, Text, text, trim, is_nonempty, ok, throw_if, or_throw, ◌>>=◌, ◌>>◌,
  if◌then◌else◌,
}
use asset_it.Store.Enums.{Role, admin, it}
use asset_it.Store.Rows.{Actor, Json}
use asset_it.Store.Exceptions.{
  Outcome, forbidden, bad_request, not_found, conflict, check_violation, unique_violation,
  foreign_key_violation, licence_manager_required, one_recipient_required, licence_not_found,
  licence_external, licence_not_valid, seat_assignment_not_found, seat_already_revoked, seats_left,
}
use asset_it.Store.Tables.{Env}
use asset_it.Renewals.Rows.{
  DigitalEntitlementType, DigitalEntitlementStatus, DigitalAssignmentStatus, DigitalAssignment,
  Licences,
}

-- `AssignEntitlementDto`
pub record AssignEntitlement : Type 0 where
  pub person_id : Option ℕ
  pub asset_id : Option ℕ
  pub department_id : Option ℕ
  pub quantity : ℕ
  pub expected_end_at : Option ℕ
  pub note : Option Text

abbrev pub is_manager_role : Role → Bool
is_manager_role admin = true
is_manager_role it = true
is_manager_role _ = false

-- `this.manage(actor)`
unfoldable pub manage : Actor → Outcome (Unit {0})
manage actor = throw_if (not (is_manager_role actor.role)) (forbidden licence_manager_required)

-- `this.text(value)`
abbrev pub text_or_null : Option Text → Option Text
text_or_null none = none
text_or_null (some t) = if is_nonempty (trim t) then some (trim t) else none

-- `[...].filter(Boolean).length`
abbrev pub given : Option ℕ → ℕ
given none = 0
given (some k) = 1

abbrev pub recipients : AssignEntitlement → ℕ
recipients body = given body.person_id + given body.asset_id + given body.department_id

-- `item.externalProvider` as a condition
abbrev pub is_external : Option Text → Bool
is_external none = false
is_external (some t) = is_nonempty t

-- `item.type !== 'LICENSE' || !['ACTIVE', 'EXPIRING'].includes(item.status)`, negated
abbrev pub is_licence : DigitalEntitlementType → Bool
is_licence DigitalEntitlementType.license = true
is_licence _ = false

abbrev pub in_force : DigitalEntitlementStatus → Bool
in_force DigitalEntitlementStatus.active = true
in_force DigitalEntitlementStatus.expiring = true
in_force _ = false

abbrev pub is_active : DigitalAssignmentStatus → Bool
is_active DigitalAssignmentStatus.active = true
is_active _ = false

-- `{ entitlementId: id, status: 'ACTIVE' }`
abbrev pub counts : ℕ → DigitalAssignment → Bool
counts k r = r.entitlement_id == k && is_active r.status

-- `aggregate({ where, _sum: { quantity: true } })`, 0 for no row
unfoldable pub used : ℕ → List DigitalAssignment → ℕ
used k [] = 0
used k (r ∷ rest) = let others = used k rest in if counts k r then r.quantity + others else others

abbrev pub new_assignment : ℕ → ℕ → AssignEntitlement → Actor → DigitalAssignment
new_assignment id k body actor = record {
  id = id;
  entitlement_id = k;
  person_id = body.person_id;
  asset_id = body.asset_id;
  department_id = body.department_id;
  quantity = body.quantity;
  status = DigitalAssignmentStatus.active;
  expected_end_at = body.expected_end_at;
  revoked_at = none;
  assigned_by = actor.id;
  revoked_by = none;
  assignment_note = text_or_null body.note;
  revoke_reason = none;
}

-- A key with `undefined` is left out of JSON.
abbrev pub option_entry : Text → Option ℕ → List (Text × Json)
option_entry key none = []
option_entry key (some k) = (key, Json.id k) ∷ []

-- The writes of `assign`.
unfoldable pub write_assignment :
    ℕ → AssignEntitlement → Actor → Licences → DigitalAssignment × Licences
write_assignment k body actor l =
    let row = new_assignment l.next_id k body actor in
    (
      row,
      record l {
        assignments = row ∷ l.assignments;
        audit =
            record {
              user_id = actor.id;
              action = text "DIGITAL_LICENSE_ASSIGNED";
              entity_type = text "DigitalAssignment";
              entity_id = row.id;
              old_values = [];
              new_values =
                  (text "entitlementId", Json.id k)
                  ∷ (option_entry (text "personId") body.person_id
                      ++ (option_entry (text "assetId") body.asset_id
                          ++ (option_entry (text "departmentId") body.department_id
                              ++ ((text "quantity", Json.number body.quantity) ∷ []))));
            }
            ∷ l.audit;
        next_id = suc l.next_id;
      },
    )

-- A row that the partial unique indexes `digital_assignments_active_person_idx`,
-- `digital_assignments_active_asset_idx` and `digital_assignments_active_department_idx` see as one
-- with the new row: it is active, of the same licence, and for the same recipient.
abbrev pub same_given : Option ℕ → Option ℕ → Bool
same_given (some a) (some b) = a == b
same_given _ _ = false

abbrev pub same_recipient : AssignEntitlement → DigitalAssignment → Bool
same_recipient body r =
    same_given body.person_id r.person_id
    || (same_given body.asset_id r.asset_id || same_given body.department_id r.department_id)

unfoldable pub has_seats : ℕ → AssignEntitlement → List DigitalAssignment → Bool
has_seats k body [] = false
has_seats k body (r ∷ rest) = (counts k r && same_recipient body r) || has_seats k body rest

-- The foreign keys `digital_assignments_personId_fkey`, `digital_assignments_assetId_fkey` and
-- `digital_assignments_departmentId_fkey`; `null` refers to nothing.
abbrev pub refers : (ℕ → Bool) → Option ℕ → Bool
refers has none = true
refers has (some k) = has k

abbrev pub recipient_exists : Licences → AssignEntitlement → Bool
recipient_exists l body =
    refers l.has_person body.person_id
    && (refers l.has_asset body.asset_id && refers l.has_department body.department_id)

-- The CHECKs of the table ask for a positive quantity and one recipient, and are looked at before
-- its unique indexes, and these before its foreign keys.
unfoldable pub assign :
    ℕ → AssignEntitlement → Actor → Licences → Outcome (DigitalAssignment × Licences)
unfolding manage
assign k body actor l = do
  manage actor
  throw_if (not (recipients body == 1)) (bad_request one_recipient_required)
  item ← or_throw (l.entitlement k) (not_found licence_not_found)
  throw_if (is_external item.external_provider) (bad_request licence_external)
  throw_if (not (is_licence item.type) || not (in_force item.status))
      (bad_request licence_not_valid)
  throw_if (ltb item.total_quantity (used k l.assignments + body.quantity))
      (conflict (seats_left (item.total_quantity - used k l.assignments)))
  throw_if (body.quantity == 0) check_violation
  throw_if (has_seats k body l.assignments) unique_violation
  throw_if (not (recipient_exists l body)) foreign_key_violation
  ok (write_assignment k body actor l)

abbrev pub revoked_row : ℕ → Actor → Text → DigitalAssignment → DigitalAssignment
revoked_row now actor reason r = record r {
  status = DigitalAssignmentStatus.revoked;
  revoked_at = some now;
  revoked_by = some actor.id;
  revoke_reason = some (trim reason);
}

abbrev pub revoke_if : ℕ → ℕ → Actor → Text → DigitalAssignment → DigitalAssignment
revoke_if id now actor reason r = if r.id == id then revoked_row now actor reason r else r

abbrev pub has_id : ℕ → DigitalAssignment → Bool
has_id id r = r.id == id

-- The writes of `revoke`.
unfoldable pub write_revocation : Env → ℕ → Text → Actor → Licences → Licences
write_revocation env id reason actor l = record l {
  assignments = map (revoke_if id env.now actor reason) l.assignments;
  audit =
      record {
        user_id = actor.id;
        action = text "DIGITAL_LICENSE_REVOKED";
        entity_type = text "DigitalAssignment";
        entity_id = id;
        old_values = (text "status", Json.str (text "ACTIVE")) ∷ [];
        new_values =
            (text "status", Json.str (text "REVOKED")) ∷ (text "reason", Json.str reason) ∷ [];
      }
      ∷ l.audit;
}

unfoldable pub revoke : Env → ℕ → Text → Actor → Licences → Outcome Licences
unfolding manage
revoke env id reason actor l = do
  manage actor
  current ← or_throw (find (has_id id) l.assignments) (not_found seat_assignment_not_found)
  throw_if (not (is_active current.status)) (bad_request seat_already_revoked)
  ok (write_revocation env id reason actor l)
