-- ===== src/Accounts/Data.antt =====
-- The rows of accounts/models.py that authorisation reads. Dates are day numbers, ids are numbers.
use holansl_backend.Base.{ℕ, Bool, Option, List, String}

-- `is_authenticated` is false for Django's anonymous user.
pub record User : Type 0 where
  pub id : ℕ
  pub username : String
  pub full_name : String
  pub email : String
  pub is_authenticated : Bool
  pub is_active : Bool
  pub is_staff : Bool
  pub is_superuser : Bool

pub record Department : Type 0 where
  pub id : ℕ
  pub name : String
  pub code : String

pub record StaffProfile : Type 0 where
  pub id : ℕ
  pub user : ℕ
  pub department : Option ℕ
  pub reports_to : Option ℕ
  pub employee_id : String
  pub start_date : ℕ
  pub end_date : Option ℕ

pub record DepartmentLeadership : Type 0 where
  pub id : ℕ
  pub department : ℕ
  pub manager : ℕ
  pub active_from : ℕ
  pub active_until : Option ℕ
  pub is_primary : Bool

-- The tables of the accounts application, and the local date.
pub record Directory : Type 0 where
  pub users : List User
  pub departments : List Department
  pub profiles : List StaffProfile
  pub leaderships : List DepartmentLeadership
  pub today : ℕ
