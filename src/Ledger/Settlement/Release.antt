-- ===== src/Ledger/Settlement/Release.antt =====
-- `release` of ledger/services/settlement.py. A check constraint refuses a tax component below zero. The audit
-- and the tracking events that follow are left out.
use Prim.Native.Nat.{◌/◌}
use holansl_backend.Base.{
  ℕ, zero, suc, ◌+◌, ◌*◌, Bool, true, false, not, ◌&&◌, none, some, List, [], ◌∷◌, ◌++◌, String,
  leb, ◌==◌, if◌then◌else◌, is_some, is_value, is_empty, strip, find, select, any, ℤ, pos, gain,
  ◌-ℤ◌, leb_ℤ, ltb_ℤ, min_ℤ, validation_error, conflict, not_found, Result, ok, err, check, ◌>>=◌,
  ◌>>◌,
}
use holansl_backend.Accounts.Data.{User}
use holansl_backend.Ledger.Data.{Currency, FinancialRecord}
use holansl_backend.Ledger.Access.{Guard, Permission, require, get_record}
use holansl_backend.Ledger.Money.{amount, minor_unit}
use holansl_backend.Ledger.Posting.{lock_period, get_currency}
use holansl_backend.Ledger.Settlement.{
  SettlementSource, AllocationEvent, TaxCollectionAllocation, Settlements, is_receipt, find_record,
}
use holansl_backend.Ledger.Settlement.Allocation.{
  find_source, find_invoice, not_before_events, add_allocation,
}

abbrev pub find_allocation : ℕ → Settlements → Result AllocationEvent
find_allocation id s = elim (find (λ e. e.id == id) s.allocations) [
  | none ↦ err (not_found "AllocationEvent")
  | some e ↦ ok e
]

-- `allocation.releases.all()`
abbrev pub is_release_of : ℕ → AllocationEvent → Bool
is_release_of id e = is_value e.release_of id

unfoldable pub released : ℕ → List AllocationEvent → ℕ
released id [] = 0
released id (e ∷ es) = (if is_release_of id e then e.amount else 0) + released id es

unfoldable pub released_tax : ℕ → List AllocationEvent → ℕ
released_tax id [] = 0
released_tax id (e ∷ es) = (if is_release_of id e then e.tax_amount else 0) + released_tax id es

-- `allocation.amount - sum(...)`
abbrev pub remaining_of : AllocationEvent → Settlements → ℤ
remaining_of a s = pos a.amount -ℤ pos (released a.id s.allocations)

-- `amount(whole * part / total, currency)`, rounded half up from the exact quotient
unfoldable pub share : Currency → ℕ → ℕ → ℕ → ℕ
share c whole part zero = 0
share c whole part (suc n) =
    let unit = minor_unit c.minor_units in
    let total = suc n * unit in (whole * part + whole * part + total) / (total + total) * unit

-- `tax_value`: all the tax that is left with the last release, and its share before.
abbrev pub released_share : Currency → AllocationEvent → ℤ → Settlements → ℤ
released_share c a value s =
    if leb_ℤ (remaining_of a s) value
    then pos a.tax_amount -ℤ pos (released_tax a.id s.allocations)
    else pos (share c a.tax_amount (gain value) a.amount)

-- What earlier releases took back of a line.
unfoldable pub taken_back : ℕ → ℕ → List AllocationEvent → List TaxCollectionAllocation → ℕ
taken_back id line es [] = 0
taken_back id line es (c ∷ cs) =
    (if c.line == line && any (λ e. e.id == c.allocation && is_release_of id e) es
      then c.amount
      else 0)
    + taken_back id line es cs

-- One component of the released tax; `last` is the test on the index.
unfoldable pub part_of :
    Currency → AllocationEvent → ℕ → ℤ → Bool → TaxCollectionAllocation → Settlements → ℤ
part_of c a tax left last row s =
    let capacity = pos row.amount -ℤ pos (taken_back a.id row.line s.allocations s.collections) in
    if a.tax_amount == 0
    then pos 0
    else min_ℤ capacity (if last then left else pos (share c tax row.amount a.tax_amount))

abbrev pub is_last : List TaxCollectionAllocation → Bool
is_last [] = true
is_last (c ∷ cs) = false

-- The loop over the components, which stores its rows as it goes: `s` has those made before.
unfoldable pub split_tax :
    Currency
    → AllocationEvent
    → ℕ
    → ℕ
    → ℤ
    → List TaxCollectionAllocation
    → Settlements
    → Result (ℤ × Settlements)
unfolding part_of
split_tax c a event tax left [] s = ok (left, s)
split_tax c a event tax left (row ∷ rows) s = do
  check (leb_ℤ (pos 0) (part_of c a tax left (is_last rows) row s))
      (conflict "ledger_tax_collection_positive")
  split_tax c a event tax (left -ℤ part_of c a tax left (is_last rows) row s) rows (record s {
    collections =
        s.collections
        ++ record {
          allocation = event;
          line = row.line;
          amount = gain (part_of c a tax left (is_last rows) row s);
        }
          ∷ [];
  })

-- `allocation.tax_collections.all()`
abbrev pub components : ℕ → Settlements → List TaxCollectionAllocation
components id s = select (λ c. c.allocation == id) s.collections

-- The checks of `release` after its permissions, on the locked rows, and the event to be made.
unfoldable pub plan_release :
    ℕ
    → SettlementSource
    → FinancialRecord
    → AllocationEvent
    → ℤ
    → ℕ
    → String
    → Settlements
    → Result (Currency × AllocationEvent)
plan_release today source target a value day reason s = do
  period ← lock_period today day s.books
  check (not (is_some a.release_of) && not (is_empty (strip reason)))
      (validation_error "" "Release an original allocation with a reason.")
  currency ← get_currency target.currency s.books
  value' ← amount (some currency) value
  check (ltb_ℤ (pos 0) value' && leb_ℤ value' (remaining_of a s))
      (validation_error "" "Release exceeds active allocation.")
  check (leb a.date day && not_before_events source.account day s)
      (validation_error "" "Release cannot predate the latest allocation.")
  check (leb_ℤ (pos 0) (released_share currency a value' s)) (conflict "ledger_allocation_positive")
  ok (
    currency,
    record {
      id = s.next_id;
      source = a.source;
      invoice = a.invoice;
      date = day;
      amount = gain value';
      release_of = some a.id;
      tax_amount = gain (released_share currency a value' s);
    },
  )

unfoldable pub release :
    Guard
    → ℕ
    → User
    → Bool
    → ℕ
    → ℤ
    → ℕ
    → String
    → Settlements
    → Result (AllocationEvent × Settlements)
unfolding plan_release split_tax
release g today user internal allocation_id value day reason s = do
  a ← find_allocation allocation_id s
  source ← find_source a.source s
  invoice ← find_invoice a.invoice s
  receipt ← elim (find_record source.record_id s) [
    | none ↦ err (not_found "FinancialRecord")
    | some r ↦ ok (is_receipt r.kind)
  ]
  (if internal
      then ok tt
      else require g user
          (if receipt then Permission.allocate_receipt else Permission.allocate_settlementsource))
  target ← get_record g user invoice.record_id "view" s.records
  source_record ← get_record g user source.record_id "view" s.records
  (currency, e) ← plan_release today source target a value day reason s
  (left, s') ←
      split_tax currency a e.id e.tax_amount (pos e.tax_amount) (components a.id s)
        (add_allocation e [] s)
  check (leb_ℤ left (pos 0) && leb_ℤ (pos 0) left)
      (validation_error "" "Tax release cannot be apportioned exactly.")
  ok (e, s')
