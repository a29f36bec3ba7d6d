-- ===== src/Access.antt =====
-- src/access.rs and src/app/access.rs: roles, permissions and the check at every endpoint, in a
-- build with the demo feature, as the default one is.
pub mod Grants
use luxor.Base.{
  Bool, true, false, Option, none, List, [], ◌∷◌, Text, codes, text_eq, any, find, if◌then◌else◌,
  Result, ok, err, ensure,
}
use luxor.Error.{AppError, missing_permission}

pub data Role : Type 0 where
  admin user : Role

pub data Permission : Type 0 where
  reports_view records_purge : Permission

abbrev pub all_roles : List Role
all_roles = admin ∷ user ∷ []

abbrev pub all_permissions : List Permission
all_permissions = reports_view ∷ records_purge ∷ []

unfoldable pub role_name : Role → Text
role_name admin = codes "admin"
role_name user = codes "user"

unfoldable pub permissions : Role → List Permission
permissions admin = all_permissions
permissions user = reports_view ∷ []

unfoldable pub permission_name : Permission → Text
permission_name reports_view = codes "reports.view"
permission_name records_purge = codes "records.purge"

unfoldable pub from_name : Text → Option Role
unfolding role_name text_eq find
from_name name = find (λ role. text_eq (role_name role) name) all_roles

abbrev permission_eq : Permission → Permission → Bool
permission_eq reports_view reports_view = true
permission_eq records_purge records_purge = true
permission_eq _ _ = false

unfoldable pub allows : Role → Permission → Bool
unfolding permissions
allows role permission = any (permission_eq permission) (permissions role)

unfoldable pub require : Role → Permission → Result AppError (Unit {0})
unfolding allows permission_name
require role permission =
    ensure (allows role permission) (missing_permission (permission_name permission))
