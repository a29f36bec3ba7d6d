-- ===== src/Demo/Reports.antt =====
-- src/demo/handlers/permissions.rs and src/handlers/permissions.rs: the endpoints that a permission
-- guards, and the matrix of the permissions.
use luxor.Base.{ℕ, ◌≡◌, refl, Bool, true, List, [], ◌∷◌, map, Text, codes, Result, ok, ◌>>◌, is_ok}
use luxor.Error.{AppError}
use luxor.Access.{
  Role, admin, user, Permission, reports_view, records_purge, all_roles, all_permissions,
  permissions, permission_name, allows, require,
}

abbrev pub description : Permission → Text
description reports_view = codes "Read the operational demo report"
description records_purge = codes "Run the simulated record purge"

pub record PermissionDescriptor : Type 0 where
  pub name : Text
  pub description : Text

pub record PermissionMatrixResponse : Type 0 where
  pub catalog : List PermissionDescriptor
  pub roles : List (Role × List Permission)

-- `PermissionStore::grants`.
unfoldable pub grants : List (Role × List Permission)
unfolding permissions
grants = map (λ role. (role, permissions role)) all_roles

abbrev descriptor : Permission → PermissionDescriptor
descriptor permission = record {
  name = permission_name permission;
  description = description permission;
}

unfoldable pub matrix : PermissionMatrixResponse
unfolding grants permission_name
matrix = record { catalog = map descriptor all_permissions; roles = grants }

pub record ReportResponse : Type 0 where
  pub required_permission : Text
  pub role : Role
  pub generated_at : ℕ
  pub rows : List (Text × ℕ)
  pub note : Text

abbrev report : Role → ℕ → ReportResponse
report role now = record {
  required_permission = permission_name reports_view;
  role = role;
  generated_at = now;
  rows =
      (codes "active_sessions", 12) ∷ (codes "queued_jobs", 3) ∷ (codes "cache_entries", 42) ∷ [];
  note = codes "Sample data demonstrating a permission-gated read.";
}

unfoldable pub reports : Role → ℕ → Result AppError ReportResponse
unfolding require permission_name ◌>>◌
reports role now = require role reports_view >> ok (report role now)

pub record PurgeReceipt : Type 0 where
  pub required_permission : Text
  pub role : Role
  pub purged_records : ℕ
  pub simulated : Bool
  pub note : Text

abbrev receipt : Role → PurgeReceipt
receipt role = record {
  required_permission = permission_name records_purge;
  role = role;
  purged_records = 128;
  simulated = true;
  note =
      codes
        "Nothing was deleted; this endpoint demonstrates a permission-gated destructive action.";
}

unfoldable pub purge_records : Role → Result AppError PurgeReceipt
unfolding require permission_name ◌>>◌
purge_records role = require role records_purge >> ok (receipt role)

-- The endpoints answer exactly the roles that the public matrix grants them to: every role a report,
-- an administrator alone a purge.
pub reports-allows :
    (role : Role) (now : ℕ)
    → (is_ok (reports role now) ≡ allows role reports_view)
      × (is_ok (purge_records role) ≡ allows role records_purge)
unfolding reports purge_records require ◌>>◌ allows permissions
reports-allows admin now = (refl, refl)
reports-allows user now = (refl, refl)
