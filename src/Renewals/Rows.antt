-- ===== src/Renewals/Rows.antt =====
-- Rows of licences and of their seats (apps/api/prisma/schema.prisma): the columns of an entitlement
-- that the requests on seats read, and an assignment of seats.
use asset_it.Prelude.{ℕ, Bool, Option, List, Text}
use asset_it.Store.Rows.{AuditLog}

pub data DigitalEntitlementType : Type 0 where
  license ssl_certificate domain : DigitalEntitlementType

pub data DigitalEntitlementStatus : Type 0 where
  active expiring expired suspended retired : DigitalEntitlementStatus

pub data DigitalAssignmentStatus : Type 0 where
  active revoked : DigitalAssignmentStatus

pub record DigitalEntitlement : Type 0 where
  pub type : DigitalEntitlementType
  pub status : DigitalEntitlementStatus
  pub total_quantity : ℕ
  pub external_provider : Option Text

pub record DigitalAssignment : Type 0 where
  pub id : ℕ
  pub entitlement_id : ℕ
  pub person_id : Option ℕ
  pub asset_id : Option ℕ
  pub department_id : Option ℕ
  pub quantity : ℕ
  pub status : DigitalAssignmentStatus
  pub expected_end_at : Option ℕ
  pub revoked_at : Option ℕ
  pub assigned_by : ℕ
  pub revoked_by : Option ℕ
  pub assignment_note : Option Text
  pub revoke_reason : Option Text

-- The tables. Rows of assignments stand newest first; of the people, the assets and the departments,
-- only which identifiers there are matters here.
pub record Licences : Type 0 where
  pub has_person : ℕ → Bool
  pub has_asset : ℕ → Bool
  pub has_department : ℕ → Bool
  pub entitlement : ℕ → Option DigitalEntitlement
  pub assignments : List DigitalAssignment
  pub audit : List AuditLog
  pub next_id : ℕ
