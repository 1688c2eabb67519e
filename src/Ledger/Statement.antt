-- ===== src/Ledger/Statement.antt =====
-- `generate` of ledger/selectors/statements.py: a client's statement of account over a range of days. The
-- snapshot that keeps it, with the names and references in its rows, is left out.
pub mod Sums
pub mod Reconciled
mod Tests
use text.Mathlib.Text.{◌==◌ as ◌=ₛ◌}
use holansl_backend.Base.{
  ℕ, ◌+◌, Bool, true, false, not, ◌&&◌, ◌||◌, Option, none, some, List, [], ◌∷◌, ◌++◌, map, String,
  ltb, leb, ◌==◌, if◌then◌else◌, is_value, find, select, any, ℤ, pos, ◌+ℤ◌, ◌-ℤ◌, leb_ℤ, Error,
  validation_error, Result, ok, err, check, ◌>>=◌, ◌>>◌,
}
use holansl_backend.Accounts.Data.{User}
use holansl_backend.Ledger.Data.{FinancialRecord}
use holansl_backend.Ledger.Access.{Guard, Permission, require}
use holansl_backend.Ledger.Settlement.{
  ClientAccount, SettlementSource, Invoice, Settlements, is_posted, is_reversed, find_record,
  invoice_due, source_available,
}

pub record ClientMovement : Type 0 where
  pub id : ℕ
  pub account : ℕ
  pub source : ℕ
  pub date : ℕ
  pub kind : String
  pub debit : ℕ
  pub credit : ℕ

abbrev pub is_opening : ClientMovement → Bool
is_opening r = r.kind =ₛ "OPENING"

-- The rows by date, those of one day as they were created: the table keeps that order.
abbrev pub insert_by_date : ClientMovement → List ClientMovement → List ClientMovement
insert_by_date r [] = r ∷ []
insert_by_date r (x ∷ xs) = if leb r.date x.date then r ∷ x ∷ xs else x ∷ insert_by_date r xs

unfoldable pub by_date : List ClientMovement → List ClientMovement
by_date [] = []
by_date (r ∷ rs) = insert_by_date r (by_date rs)

-- `sum((r.debit - r.credit for r in rows), Decimal(0))`
unfoldable pub net : List ClientMovement → ℤ
net [] = pos 0
net (r ∷ rs) = (pos r.debit -ℤ pos r.credit) +ℤ net rs

abbrev pub is_before : ℕ → ClientMovement → Bool
is_before date_from r = ltb r.date date_from || is_opening r && r.date == date_from

abbrev pub is_within : ℕ → ℕ → ClientMovement → Bool
is_within date_from date_to r =
    leb date_from r.date && leb r.date date_to && not (is_opening r && r.date == date_from)

pub record Totals : Type 0 where
  pub balance : ℤ
  pub invoiced : ℕ
  pub cash : ℕ
  pub withheld : ℕ
  pub debits : ℕ
  pub credits : ℕ

-- The body of the loop over the period.
unfoldable pub add_row : ClientMovement → Totals → Totals
add_row r t =
    let t' : Totals = record t { balance = t.balance +ℤ (pos r.debit -ℤ pos r.credit) } in
    if r.kind =ₛ "INVOICE"
    then record t' { invoiced = t.invoiced + r.debit }
    else if r.kind =ₛ "RECEIPT"
    then record t' { cash = t.cash + r.credit }
    else if r.kind =ₛ "WITHHOLDING"
    then record t' { withheld = t.withheld + r.credit }
    else record t' { debits = t.debits + r.debit; credits = t.credits + r.credit }

-- The loop, with the row's key, source, sides and running balance.
unfoldable pub add_rows : List ClientMovement → Totals → List (ClientMovement × ℤ) × Totals
unfolding add_row
add_rows [] t = ([], t)
add_rows (r ∷ rs) t =
    let t' : Totals = add_row r t in
    let rest : List (ClientMovement × ℤ) × Totals = add_rows rs t' in
    ((r, t'.balance) ∷ rest.0, rest.1)

pub record Statement : Type 0 where
  pub date_from : ℕ
  pub date_to : ℕ
  pub opening_balance : ℤ
  pub rows : List (ClientMovement × ℤ)
  pub totals : Totals
  pub outstanding : List (ℕ × ℤ)
  pub unallocated : List (ℕ × ℤ)

-- `record.status in [...]` and `record.date <= date_to`, of the record with the key
abbrev pub record_by : (FinancialRecord → Bool) → ℕ → ℕ → Settlements → Bool
record_by p id date_to s = elim (find_record id s) [
  | none ↦ false
  | some r ↦ p r && leb r.date date_to
]

abbrev pub outstanding_of : ℕ → ℕ → ℕ → Settlements → List (ℕ × ℤ)
outstanding_of party currency date_to s =
    map (λ i. (i.record_id, invoice_due i (some date_to) s))
      (select
        (λ i.
          record_by (λ r. is_value r.party party && r.currency == currency && is_posted r.status)
            i.record_id date_to s)
        s.invoices)

abbrev pub unallocated_of : ℕ → ℕ → Settlements → List (ℕ × ℤ)
unallocated_of account date_to s =
    map (λ x. (x.id, source_available x (some date_to) s))
      (select
        (λ x.
          x.account == account
          && record_by (λ r. is_posted r.status || is_reversed r.status) x.record_id date_to s)
        s.sources)

-- `client_account(user, party, currency)`
abbrev pub client_account : ℕ → ℕ → Settlements → ClientAccount × Settlements
client_account party currency s =
    elim (find (λ a. a.party == party && a.currency == currency) s.accounts) [
      | some a ↦ (a, s)
      | none ↦
          let a : ClientAccount = record { id = s.next_id; party = party; currency = currency } in
          (a, record s { accounts = s.accounts ++ a ∷ []; next_id = s.next_id + 1 })
    ]

-- The statement from the account's rows.
unfoldable pub statement_of : ℕ → ℕ → List ClientMovement → List (ℕ × ℤ) → List (ℕ × ℤ) → Statement
unfolding net add_rows
statement_of date_from date_to all_rows outstanding unallocated =
    let opening : ℤ = net (select (is_before date_from) all_rows) in
    let start : Totals = record {
      balance = opening;
      invoiced = 0;
      cash = 0;
      withheld = 0;
      debits = 0;
      credits = 0;
    } in
    let made : List (ClientMovement × ℤ) × Totals =
      add_rows (select (is_within date_from date_to) all_rows) start in
    record {
      date_from = date_from;
      date_to = date_to;
      opening_balance = opening;
      rows = made.0;
      totals = made.1;
      outstanding = outstanding;
      unallocated = unallocated;
    }

unfoldable pub generate :
    Guard
    → User
    → ℕ
    → ℕ
    → ℕ
    → ℕ
    → List ClientMovement
    → Settlements
    → Result (Statement × Settlements)
unfolding statement_of by_date
generate g user party currency date_from date_to movements s = do
  require g user Permission.view_clientstatement
  require g user Permission.viewall_financialrecord
  check (leb date_from date_to) (validation_error "" "End date must not precede start date.")
  let taken : ClientAccount × Settlements = client_account party currency s
  let all_rows : List ClientMovement = by_date (select (λ r. r.account == (taken.0).id) movements)
  check (not (any is_opening all_rows) || any (λ r. is_opening r && leb r.date date_from) all_rows)
      (validation_error "" "Selected range precedes available opening history.")
  ok (
    statement_of date_from date_to all_rows (outstanding_of party currency date_to taken.1)
        (unallocated_of (taken.0).id date_to taken.1),
    taken.1,
  )
