-- ===== src/Ledger/Posting.antt =====
-- The posting engine of ledger/services/posting.py. Rows are given with their party and staff; the
-- description of an entry is left out.
pub mod Balanced
pub mod Soundness
mod Tests
use text.Mathlib.Text.{◌==◌ as ◌=ₛ◌}
use holansl_backend.Base.{
  ℕ, zero, suc, ◌+◌, Bool, true, false, not, ◌&&◌, ◌||◌, Option, none, some, List, [], ◌∷◌, ◌++◌,
  String, ltb, leb, ◌==◌, if◌then◌else◌, is_value, find, any, length, ℤ, pos, gain, ltb_ℤ, Error,
  validation_error, conflict, unconfigured, not_found, Result, ok, err, check, ◌>>=◌, ◌>>◌,
}
use holansl_backend.Ledger.Data.{
  Currency, LedgerAccount, AccountCurrency, AccountingPeriod, JournalLine, JournalEntry,
  FinancialRecord, Books, debits, credits,
}
use holansl_backend.Ledger.Money.{amount}

-- `business_date`, on a date
unfoldable pub business_date : ℕ → ℕ → Result ℕ
business_date today day = do
  check (leb day today) (validation_error "" "A nonfuture accounting date is required.")
  ok day

unfoldable pub lock_period : ℕ → ℕ → Books → Result AccountingPeriod
unfolding business_date
lock_period today day s = do
  day' ← business_date today day
  elim (find (λ p. leb p.start day' && leb day' p.stop) s.periods) [
    | none ↦ err (unconfigured "Create the financial year and accounting period first.")
    | some p ↦ if p.closed then err (conflict "Accounting period is closed.") else ok p
  ]

-- `objects.get(pk=id)`
abbrev pub get_currency : ℕ → Books → Result Currency
get_currency id s = elim (find (λ c. c.id == id) s.currencies) [
  | none ↦ err (not_found "Currency")
  | some c ↦ ok c
]

abbrev pub get_account : ℕ → Books → Result LedgerAccount
get_account id s = elim (find (λ a. a.id == id) s.accounts) [
  | none ↦ err (not_found "LedgerAccount")
  | some a ↦ ok a
]

-- `LedgerAccount.objects.filter(parent=account).exists()`
abbrev pub is_parent : ℕ → Books → Bool
is_parent id s = any (λ a. is_value a.parent id) s.accounts

-- `get_or_create(account=account, currency=currency)`
abbrev pub get_or_create : ℕ → ℕ → Books → AccountCurrency × Books
get_or_create account currency s =
    elim (find (λ x. x.account == account && x.currency == currency) s.account_currencies) [
      | some x ↦ (x, s)
      | none ↦
          let x : AccountCurrency = record {
            id = s.next_id;
            account = account;
            currency = currency;
          } in
          (
            x,
            record s {
              account_currencies = s.account_currencies ++ x ∷ [];
              next_id = s.next_id + 1;
            },
          )
    ]

unfoldable pub account_currency :
    LedgerAccount → Currency → Books → Result (AccountCurrency × Books)
account_currency account currency s = do
  check (account.active && currency.active)
      (validation_error "" "Posting account and currency must be active.")
  check (not (is_parent account.id s)) (validation_error "" "Post only to a leaf account.")
  ok (get_or_create account.id currency.id s)

-- The account of a row: a ledger account, or one in a currency.
pub data Target : Type 0 where
  ledger_account : LedgerAccount → Target
  in_currency : AccountCurrency → Target

pub record Row : Type 0 where
  pub account : Target
  pub debit : ℤ
  pub credit : ℤ
  pub party : Option ℕ
  pub staff : Option ℕ

-- `isinstance(account, m.LedgerAccount)`
abbrev pub resolve : Target → Currency → Books → Result (AccountCurrency × Books)
resolve (ledger_account a) currency s = account_currency a currency s
resolve (in_currency x) currency s = ok (x, s)

abbrev pub is_zero : ℤ → Bool
is_zero x = not (ltb_ℤ (pos 0) x) && not (ltb_ℤ x (pos 0))

-- `(debit > 0 and credit == 0) or (credit > 0 and debit == 0)`
abbrev pub one_sided : ℤ → ℤ → Bool
one_sided d c = ltb_ℤ (pos 0) d && is_zero c || ltb_ℤ (pos 0) c && is_zero d

-- The line of rounded sides; `none` is the `continue` of a row without an amount.
unfoldable pub make_line : AccountCurrency → Row → ℤ → ℤ → Result (Option JournalLine)
make_line x row debit credit =
    if is_zero debit && is_zero credit
    then ok none
    else if one_sided debit credit
    then ok (
        some (record {
          account = x.id;
          party = row.party;
          staff = row.staff;
          debit = gain debit;
          credit = gain credit;
        }))
    else err (validation_error "" "Journal lines must have exactly one positive side.")

-- One round of the loop over the rows.
unfoldable pub prepare_row : Currency → Row → Books → Result (Option JournalLine × Books)
unfolding account_currency make_line
prepare_row currency row s = do
  (x, s₁) ← resolve row.account currency s
  check (x.currency == currency.id) (validation_error "" "Journal currencies must match.")
  a ← get_account x.account s₁
  check (a.active && not (is_parent a.id s₁))
      (validation_error "" "Posting account must be an active leaf.")
  debit ← amount (some currency) row.debit
  credit ← amount (some currency) row.credit
  line ← make_line x row debit credit
  ok (line, s₁)

abbrev pub add_line : Option JournalLine → List JournalLine → List JournalLine
add_line none ls = ls
add_line (some l) ls = l ∷ ls

unfoldable pub prepare : Currency → List Row → Books → Result (List JournalLine × Books)
unfolding prepare_row
prepare currency [] s = ok ([], s)
prepare currency (row ∷ rows) s = do
  (line, s₁) ← prepare_row currency row s
  (lines, s₂) ← prepare currency rows s₁
  ok (add_line line lines, s₂)

-- `JournalEntry.objects.filter(source=record, event=event).exists()`
abbrev pub is_posted : ℕ → String → List JournalEntry → Bool
is_posted source event es = any (λ e. e.source == source && e.event =ₛ event) es

-- The surroundings of a posting: the local date, and the time.
pub record Clock : Type 0 where
  pub today : ℕ
  pub now : ℕ

-- `day or record.date`
abbrev pub day_or_date : Option ℕ → FinancialRecord → ℕ
day_or_date none r = r.date
day_or_date (some day) r = day

unfoldable pub journal :
    Clock
    → FinancialRecord
    → String
    → List Row
    → Option ℕ
    → Option ℕ
    → Books
    → Result (JournalEntry × Books)
unfolding lock_period prepare
journal clock r event rows day reversal_of s = do
  period ← lock_period clock.today (day_or_date day r) s
  currency ← get_currency r.currency s
  check currency.active (validation_error "" "Posting currency is inactive.")
  check (not (is_posted r.id event s.entries)) (conflict "This source event was already posted.")
  (lines, s₁) ← prepare currency rows s
  check (leb 2 (length lines) && debits lines == credits lines)
      (validation_error "" "Journal is not balanced.")
  let entry : JournalEntry = record {
    id = s₁.next_id;
    date = day_or_date day r;
    period = period.id;
    currency = currency.id;
    source = r.id;
    event = event;
    posted_at = some clock.now;
    reversal_of = reversal_of;
    lines = lines;
  }
  ok (entry, record s₁ { entries = s₁.entries ++ entry ∷ []; next_id = s₁.next_id + 1 })
