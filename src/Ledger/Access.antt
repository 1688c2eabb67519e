-- ===== src/Ledger/Access.antt =====
-- `require`, `visible_records` and `get_record` of ledger/services/common.py. Django's permission backend is
-- the field `has_perm`.
use holansl_backend.Base.{
  ℕ, Bool, false, ◌&&◌, ◌||◌, Option, none, some, List, String, ◌==◌, is_value, find,
  permission_denied, not_found, Result, ok, err, check, ◌>>◌,
}
use holansl_backend.Accounts.Data.{User}
use holansl_backend.Ledger.Data.{Kind, FinancialRecord}

-- The permissions of the ledger: an action on the resource of a kind, or one by its name.
pub data Permission : Type 0 where
  view_financialrecord viewall_financialrecord viewdepartment_financialrecord : Permission
  allocate_receipt allocate_settlementsource view_clientstatement : Permission
  on_resource : String → Kind → Permission

pub record Guard : Type 0 where
  pub has_perm : User → Permission → Bool
  pub department_of : User → Option ℕ

unfoldable pub require : Guard → User → Permission → Result (Unit {0})
require g user permission = do
  check (user.is_authenticated && user.is_active && (user.is_staff || user.is_superuser))
      (permission_denied "Active staff access is required.")
  check (g.has_perm user permission) (permission_denied "Required ledger permission is missing.")

-- The query of `visible_records`, once `require` has passed.
abbrev pub is_visible : Guard → User → FinancialRecord → Bool
is_visible g user r =
    g.has_perm user Permission.viewall_financialrecord
    || is_value r.created_by user.id
    || elim (g.department_of user) [
      | none ↦ false
      | some d ↦ g.has_perm user Permission.viewdepartment_financialrecord && r.department == d
    ]

unfoldable pub get_record :
    Guard → User → ℕ → String → List FinancialRecord → Result FinancialRecord
unfolding require
get_record g user id action records = do
  require g user Permission.view_financialrecord
  elim (find (λ r. r.id == id && is_visible g user r) records) [
    | none ↦ err (not_found "FinancialRecord")
    | some r ↦ do require g user (Permission.on_resource action r.kind); ok r
  ]
