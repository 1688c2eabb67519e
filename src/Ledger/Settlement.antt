-- ===== src/Ledger/Settlement.antt =====
-- ledger/services/settlement.py: allocations of settlement to invoices and their releases, which are only
-- ever added. The quotient that apportions released tax is exact here; `Decimal` agrees while amounts
-- have at most fourteen digits.
pub mod Allocation
pub mod Release
pub mod Bounds
pub mod Plans
pub mod Covered
mod Tests
use text.Mathlib.Text.{◌==◌ as ◌=ₛ◌}
use holansl_backend.Base.{
  ℕ, zero, suc, ◌+◌, ◌*◌, Bool, true, false, not, ◌&&◌, ◌||◌, Option, none, some, List, [], ◌∷◌,
  ◌++◌, map, String, ltb, leb, ◌==◌, if◌then◌else◌, is_some, is_value, is_empty, strip, find,
  select, any, contains, ℤ, pos, diff, gain, ◌+ℤ◌, ◌-ℤ◌, leb_ℤ, ltb_ℤ, min_ℤ, sum_ℤ, Error,
  permission_denied, validation_error, conflict, not_found, Result, ok, err, check, ◌>>=◌, ◌>>◌,
}
use Prim.Native.Nat.{◌/◌}
use holansl_backend.Accounts.Data.{User}
use holansl_backend.Ledger.Data.{Currency, JournalEntry, FinancialRecord, RecordStatus, Kind, Books}
use holansl_backend.Ledger.Money.{amount, minor_unit, quantize}
use holansl_backend.Ledger.Posting.{business_date, lock_period, get_currency}

pub record ClientAccount : Type 0 where
  pub id : ℕ
  pub party : ℕ
  pub currency : ℕ

pub record SettlementSource : Type 0 where
  pub id : ℕ
  pub record_id : ℕ
  pub account : ℕ
  pub amount : ℕ

pub record Invoice : Type 0 where
  pub id : ℕ
  pub record_id : ℕ

pub record InvoiceLine : Type 0 where
  pub id : ℕ
  pub invoice : ℕ
  pub net : ℕ
  pub tax : ℕ

pub record AllocationEvent : Type 0 where
  pub id : ℕ
  pub source : ℕ
  pub invoice : ℕ
  pub date : ℕ
  pub amount : ℕ
  pub release_of : Option ℕ
  pub tax_amount : ℕ

pub record TaxCollectionAllocation : Type 0 where
  pub allocation : ℕ
  pub line : ℕ
  pub amount : ℕ

-- A refund of client money, by its payment's record.
pub record RefundApplication : Type 0 where
  pub payment : ℕ
  pub source : ℕ
  pub amount : ℕ

-- Tax of a line that a client withheld, or that a credit note took back, by the owning record.
pub record LineTax : Type 0 where
  pub record_id : ℕ
  pub line : ℕ
  pub amount : ℕ

-- The tables of settlement, beside the books. `cash_receipts` are the records whose receipt has the purpose
-- CLIENT, and `withheld` the records of deductions with the treatment VAT.
pub record Settlements : Type 0 where
  pub books : Books
  pub records : List FinancialRecord
  pub accounts : List ClientAccount
  pub sources : List SettlementSource
  pub invoices : List Invoice
  pub lines : List InvoiceLine
  pub allocations : List AllocationEvent
  pub collections : List TaxCollectionAllocation
  pub refunds : List RefundApplication
  pub withheld : List LineTax
  pub credited_lines : List LineTax
  pub cash_receipts : List ℕ
  pub next_id : ℕ

abbrev pub is_receipt : Kind → Bool
is_receipt Kind.receipt = true
is_receipt _ = false

abbrev pub is_posted : RecordStatus → Bool
is_posted RecordStatus.posted = true
is_posted _ = false

abbrev pub is_reversed : RecordStatus → Bool
is_reversed RecordStatus.reversed = true
is_reversed _ = false

abbrev pub find_record : ℕ → Settlements → Option FinancialRecord
find_record id s = find (λ r. r.id == id) s.records

-- `date__lte=day`, where a day is given
abbrev pub until : Option ℕ → ℕ → Bool
until none date = true
until (some day) date = leb date day

-- `-r.amount if r.release_of_id else r.amount`
abbrev pub signed : AllocationEvent → ℤ
signed e = if is_some e.release_of then diff 0 e.amount else pos e.amount

unfoldable pub applied : List AllocationEvent → ℤ
applied [] = pos 0
applied (e ∷ es) = signed e +ℤ applied es

abbrev pub of_invoice : ℕ → Option ℕ → AllocationEvent → Bool
of_invoice id day e = e.invoice == id && until day e.date

abbrev pub of_source : ℕ → Option ℕ → AllocationEvent → Bool
of_source id day e = e.source == id && until day e.date

abbrev pub record_amount : ℕ → Settlements → ℕ
record_amount id s = elim (find_record id s) [ none ↦ 0 | some r ↦ r.amount ]

-- `invoice_due(invoice, day)`
unfoldable pub invoice_due : Invoice → Option ℕ → Settlements → ℤ
unfolding applied
invoice_due i day s =
    pos (record_amount i.record_id s) -ℤ applied (select (of_invoice i.id day) s.allocations)

-- `journals.filter(event="REVERSE", **...).exists()`
abbrev pub is_reversed_by : ℕ → Option ℕ → Settlements → Bool
is_reversed_by record_id day s =
    any (λ e. e.source == record_id && e.event =ₛ "REVERSE" && until day e.date) s.books.entries

-- Refunds by posted or reversed payments up to the day, less those reversed up to the day.
abbrev pub counts : ℕ → Option ℕ → Settlements → RefundApplication → Bool
counts source day s r =
    r.source == source
    && elim (find_record r.payment s) [
      | none ↦ false
      | some p ↦ (is_posted p.status || is_reversed p.status) && until day p.date
    ]
    && not (is_reversed_by r.payment day s)

abbrev pub refund_total : List RefundApplication → ℕ
refund_total [] = 0
refund_total (r ∷ rs) = r.amount + refund_total rs

-- `source_available(source, day)`
unfoldable pub source_available : SettlementSource → Option ℕ → Settlements → ℤ
unfolding applied
source_available src day s =
    if is_reversed_by src.record_id day s
    then pos 0
    else pos src.amount
      -ℤ applied (select (of_source src.id day) s.allocations)
      -ℤ pos (refund_total (select (counts src.id day s) s.refunds))
