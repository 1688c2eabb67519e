-- ===== src/Ledger/Data.antt =====
-- The rows of ledger/models/accounting.py and finance.py that posting reads and writes. Amounts are in
-- ten-thousandths, as the four decimal places of `money` hold them; a column that a check constraint
-- keeps from falling below zero is a natural number. Dates are day numbers.
use holansl_backend.Base.{ℕ, ◌+◌, Bool, Option, List, [], ◌∷◌, String}

pub data Classification : Type 0 where
  asset liability equity income expense : Classification

pub record Currency : Type 0 where
  pub id : ℕ
  pub minor_units : ℕ
  pub active : Bool

pub record LedgerAccount : Type 0 where
  pub id : ℕ
  pub classification : Classification
  pub parent : Option ℕ
  pub active : Bool

pub record AccountCurrency : Type 0 where
  pub id : ℕ
  pub account : ℕ
  pub currency : ℕ

pub record AccountingPeriod : Type 0 where
  pub id : ℕ
  pub start : ℕ
  pub stop : ℕ
  pub closed : Bool

pub record JournalLine : Type 0 where
  pub account : ℕ
  pub party : Option ℕ
  pub staff : Option ℕ
  pub debit : ℕ
  pub credit : ℕ

-- An entry with its lines; `event` is part of the key that makes a posting unique.
pub record JournalEntry : Type 0 where
  pub id : ℕ
  pub date : ℕ
  pub period : ℕ
  pub currency : ℕ
  pub source : ℕ
  pub event : String
  pub posted_at : Option ℕ
  pub reversal_of : Option ℕ
  pub lines : List JournalLine

pub data Kind : Type 0 where
  invoice receipt payment supplier_bill expense advance clearance credit withholding : Kind
  tax_remittance manual opening : Kind

pub data RecordStatus : Type 0 where
  draft submitted approved rejected posted cancelled reversed superseded : RecordStatus

pub record FinancialRecord : Type 0 where
  pub id : ℕ
  pub kind : Kind
  pub created_by : Option ℕ
  pub department : ℕ
  pub party : Option ℕ
  pub currency : ℕ
  pub date : ℕ
  pub status : RecordStatus
  pub version : ℕ
  pub amount : ℕ
  pub net_amount : ℕ
  pub tax_amount : ℕ

-- The tables of the books. `next_id` hands out the keys of new rows.
pub record Books : Type 0 where
  pub currencies : List Currency
  pub accounts : List LedgerAccount
  pub account_currencies : List AccountCurrency
  pub periods : List AccountingPeriod
  pub entries : List JournalEntry
  pub next_id : ℕ

-- The sides of a list of lines.
abbrev pub debits : List JournalLine → ℕ
debits [] = 0
debits (l ∷ ls) = l.debit + debits ls

abbrev pub credits : List JournalLine → ℕ
credits [] = 0
credits (l ∷ ls) = l.credit + credits ls
