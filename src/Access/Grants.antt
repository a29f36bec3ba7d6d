-- ===== src/Access/Grants.antt =====
-- src/access.rs and src/app/access.rs: the permission check, and the names of the roles.
use luxor.Base.{
  ◌≡◌, ◌↔◌, refl, text_eq_iff, Text, find, some, inl, inr, arith, List, [], ◌∷◌, ◌⊎◌, ok, err,
}
use luxor.Error.{missing_permission, status_code}
use luxor.Access.{
  Role, Permission, admin, user, reports_view, records_purge, role_name, from_name, permissions,
  require, permission_name, allows,
}

-- A name is read as a role exactly if it is the name that the role is stored and sent by.
pub from_name_iff :
    (name : Text) (role : Role) → (from_name name ≡ some role) ↔ (name ≡ role_name role)
unfolding from_name role_name find
from_name_iff name role = (forth, back role)
  where
    forth : from_name name ≡ some role → name ≡ role_name role
    forth h = ground (arith, text_eq_iff (role_name admin) name, text_eq_iff (role_name user) name)

    back : (r : Role) → name ≡ role_name r → from_name name ≡ some r
    back admin e = rw e refl
    back user e = rw e refl

-- `contains`, as a relation.
pub data IsGranted (permission : Permission) : List Permission → Type 0 where
  here : {rest : List Permission} → IsGranted permission (permission ∷ rest)
  there :
      {p : Permission} {rest : List Permission}
      → IsGranted permission rest
      → IsGranted permission (p ∷ rest)

-- A role that the declared grants give the permission passes the check, and any other is refused by
-- the error that names the permission, with status 403.
pub require_outcome :
    (role : Role) (permission : Permission)
    → ((require role permission ≡ ok tt) × IsGranted permission (permissions role))
      ⊎ ((require role permission ≡ err (missing_permission (permission_name permission)))
          × ¬ IsGranted permission (permissions role)
          × (status_code (missing_permission (permission_name permission)) ≡ 403))
unfolding require allows permissions status_code
require_outcome admin reports_view = inl (refl, here)
require_outcome admin records_purge = inl (refl, there here)
require_outcome user reports_view = inl (refl, here)
require_outcome user records_purge = inr (refl, not_granted, refl)
  where
    not_granted : ¬ IsGranted records_purge (reports_view ∷ [])
    not_granted (there h) = elim h [ ]
