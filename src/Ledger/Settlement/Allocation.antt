-- ===== src/Ledger/Settlement/Allocation.antt =====
-- `allocate` of ledger/services/settlement.py. The audit and the tracking events that follow are left out.
use holansl_backend.Base.{
  ℕ, ◌+◌, Bool, false, not, ◌&&◌, ◌||◌, none, some, List, [], ◌∷◌, ◌++◌, map, ltb, leb, ◌==◌,
  if◌then◌else◌, is_some, find, select, any, contains, ℤ, pos, gain, ◌+ℤ◌, ◌-ℤ◌, leb_ℤ, ltb_ℤ,
  validation_error, not_found, Result, ok, err, check, ◌>>=◌, ◌>>◌,
}
use holansl_backend.Accounts.Data.{User}
use holansl_backend.Ledger.Data.{Currency, FinancialRecord}
use holansl_backend.Ledger.Access.{Guard, Permission, require, get_record}
use holansl_backend.Ledger.Money.{amount}
use holansl_backend.Ledger.Posting.{lock_period, get_currency}
use holansl_backend.Ledger.Settlement.{
  SettlementSource, Invoice, InvoiceLine, AllocationEvent, TaxCollectionAllocation, LineTax,
  Settlements, is_receipt, is_posted, find_record, invoice_due, source_available,
}

abbrev pub find_source : ℕ → Settlements → Result SettlementSource
find_source id s = elim (find (λ x. x.id == id) s.sources) [
  | none ↦ err (not_found "SettlementSource")
  | some x ↦ ok x
]

abbrev pub find_invoice : ℕ → Settlements → Result Invoice
find_invoice id s = elim (find (λ x. x.id == id) s.invoices) [
  | none ↦ err (not_found "Invoice")
  | some x ↦ ok x
]

-- The sign of a collection is that of its allocation.
abbrev pub is_release : ℕ → List AllocationEvent → Bool
is_release id es = any (λ e. e.id == id && is_some e.release_of) es

unfoldable pub collected_in : ℕ → List AllocationEvent → List TaxCollectionAllocation → ℤ
collected_in line es [] = pos 0
collected_in line es (c ∷ cs) =
    let rest = collected_in line es cs in
    if c.line == line
    then if is_release c.allocation es then rest -ℤ pos c.amount else rest +ℤ pos c.amount
    else rest

-- `tax_collected(line)`
abbrev pub tax_collected : ℕ → Settlements → ℤ
tax_collected line s = collected_in line s.allocations s.collections

-- The amounts of posted records on a line: `tax_withheld(line)` and `credited(line)`
abbrev pub posted_tax : ℕ → List LineTax → Settlements → ℕ
posted_tax line [] s = 0
posted_tax line (t ∷ ts) s =
    (if t.line == line
        && elim (find_record t.record_id s) [ none ↦ false | some r ↦ is_posted r.status ]
      then t.amount
      else 0)
    + posted_tax line ts s

-- `line.tax - tax_collected(line) - tax_withheld(line) - credited(line)`
abbrev pub tax_left : InvoiceLine → Settlements → ℤ
tax_left l s =
    pos l.tax
    -ℤ tax_collected l.id s
    -ℤ pos (posted_tax l.id s.withheld s)
    -ℤ pos (posted_tax l.id s.credited_lines s)

-- An entry of `tax_lines`: the line, by its key, and the amount.
pub record TaxRow : Type 0 where
  pub line : ℕ
  pub amount : ℤ

-- The loop over `tax_lines`, after the lines `seen`.
unfoldable pub check_tax_rows :
    Currency → ℕ → List ℕ → List TaxRow → Settlements → Result (List (InvoiceLine × ℕ))
check_tax_rows c invoice seen [] s = ok []
check_tax_rows c invoice seen (row ∷ rows) s = elim (find (λ l. l.id == row.line) s.lines) [
  | none ↦ err (not_found "InvoiceLine")
  | some line ↦ do
    value ← amount (some c) row.amount
    check (line.invoice == invoice && not (contains line.id seen))
        (validation_error "" "Invalid or duplicate tax component.")
    check (leb_ℤ (pos 0) value && leb_ℤ value (tax_left line s))
        (validation_error "" "Tax allocation exceeds remaining component.")
    rest ← check_tax_rows c invoice (line.id ∷ seen) rows s
    ok ((line, gain value) ∷ rest)
]

abbrev pub tax_total : List (InvoiceLine × ℕ) → ℕ
tax_total [] = 0
tax_total (r ∷ rs) = r.1 + tax_total rs

-- `remaining_tax`
unfoldable pub remaining_tax : List InvoiceLine → Settlements → ℤ
remaining_tax [] s = pos 0
remaining_tax (l ∷ ls) s = tax_left l s +ℤ remaining_tax ls s

-- `AllocationEvent.objects.filter(source__account=account)`: no event of the account is later than `day`.
abbrev pub not_before_events : ℕ → ℕ → Settlements → Bool
not_before_events account day s = not (
    any (λ e. ltb day e.date && any (λ x. x.id == e.source && x.account == account) s.sources)
      s.allocations)

-- The rule on tax for the kind of source: all remaining tax with the last cash, none without cash.
unfoldable pub check_tax :
    Bool → ℤ → Invoice → List (InvoiceLine × ℕ) → Settlements → Result (Unit {0})
check_tax cash value invoice rows s =
    if cash
    then check
        (not (leb_ℤ (invoice_due invoice none s) value && leb_ℤ value (invoice_due invoice none s))
          || (leb_ℤ (pos (tax_total rows))
                (remaining_tax (select (λ l. l.invoice == invoice.id) s.lines) s)
              && leb_ℤ (remaining_tax (select (λ l. l.invoice == invoice.id) s.lines) s)
                  (pos (tax_total rows))))
        (validation_error ""
          "Final cash settlement must explicitly allocate all remaining invoice tax.")
    else elim rows [
      | [] ↦ ok tt
      | _ ∷ _ ↦
          err (validation_error "" "Noncash settlement must not be recorded as tax collected.")
    ]

abbrev pub collections_of : ℕ → List (InvoiceLine × ℕ) → List TaxCollectionAllocation
collections_of id rows = map (λ r. record { allocation = id; line = (r.0).id; amount = r.1 }) rows

abbrev pub add_allocation :
    AllocationEvent → List TaxCollectionAllocation → Settlements → Settlements
add_allocation e cs s = record s {
  allocations = s.allocations ++ e ∷ [];
  collections = s.collections ++ cs;
  next_id = s.next_id + 1;
}

-- The checks of `allocate` after its permissions, on the locked rows, and the event to be made.
unfoldable pub plan_allocation :
    ℕ
    → SettlementSource
    → FinancialRecord
    → Invoice
    → FinancialRecord
    → ℤ
    → ℕ
    → List TaxRow
    → Settlements
    → Result (AllocationEvent × List TaxCollectionAllocation)
unfolding check_tax_rows
plan_allocation today source source_record invoice target value day tax_lines s = do
  period ← lock_period today day s.books
  check (is_posted source_record.status && is_posted target.status)
      (validation_error "" "Both settlement source and invoice must be posted.")
  check
      (any
        (λ a.
          a.id == source.account
          && elim target.party [ none ↦ false | some p ↦ a.party == p ]
          && a.currency == target.currency)
        s.accounts)
      (validation_error "" "Allocation client/currency must match.")
  check (leb source_record.date day && leb target.date day)
      (validation_error "" "Allocation cannot precede its source or invoice.")
  check (not_before_events source.account day s)
      (validation_error "" "Allocation changes cannot predate the latest client allocation event.")
  currency ← get_currency target.currency s.books
  value' ← amount (some currency) value
  check
      (ltb_ℤ (pos 0) value'
        && leb_ℤ value' (source_available source none s)
        && leb_ℤ value' (invoice_due invoice none s))
      (validation_error "" "Amount exceeds available settlement or outstanding invoice.")
  rows ← check_tax_rows currency invoice.id [] tax_lines s
  check (leb_ℤ (pos (tax_total rows)) value')
      (validation_error "" "Tax cannot exceed cash applied.")
  check_tax (is_receipt source_record.kind && contains source_record.id s.cash_receipts) value'
      invoice rows s
  ok (
    record {
      id = s.next_id;
      source = source.id;
      invoice = invoice.id;
      date = day;
      amount = gain value';
      release_of = none;
      tax_amount = tax_total rows;
    },
    collections_of s.next_id rows,
  )

-- `internal` calls skip the permission to allocate.
unfoldable pub allocate :
    Guard
    → ℕ
    → User
    → Bool
    → ℕ
    → ℕ
    → ℤ
    → ℕ
    → List TaxRow
    → Settlements
    → Result (AllocationEvent × Settlements)
unfolding plan_allocation
allocate g today user internal source_id invoice_id value day tax_lines s = do
  source ← find_source source_id s
  invoice ← find_invoice invoice_id s
  receipt ← elim (find_record source.record_id s) [
    | none ↦ err (not_found "FinancialRecord")
    | some r ↦ ok (is_receipt r.kind)
  ]
  (if internal
      then ok tt
      else require g user
          (if receipt then Permission.allocate_receipt else Permission.allocate_settlementsource))
  source_record ← get_record g user source.record_id "view" s.records
  target ← get_record g user invoice.record_id "view" s.records
  (e, cs) ← plan_allocation today source source_record invoice target value day tax_lines s
  ok (e, add_allocation e cs s)
