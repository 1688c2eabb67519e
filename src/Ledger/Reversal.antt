-- ===== src/Ledger/Reversal.antt =====
-- The reversal journal of ledger/services/reversals.py: the lines of the original with their sides swapped.
pub mod Netting
mod Tests
use holansl_backend.Base.{
  ℕ, Option, none, some, List, [], ◌∷◌, ◌==◌, find, pos, not_found, Result, ok, err, ◌>>=◌,
}
use holansl_backend.Ledger.Data.{AccountCurrency, JournalLine, JournalEntry, FinancialRecord, Books}
use holansl_backend.Ledger.Posting.{Row, in_currency, Clock, journal}

-- `r.account`
abbrev pub get_account_currency : ℕ → Books → Result AccountCurrency
get_account_currency id s = elim (find (λ x. x.id == id) s.account_currencies) [
  | none ↦ err (not_found "AccountCurrency")
  | some x ↦ ok x
]

-- `[(r.account, r.credit, r.debit, r.party, r.staff) for r in original.lines]`
unfoldable pub reversal_rows : List JournalLine → Books → Result (List Row)
reversal_rows [] s = ok []
reversal_rows (l ∷ ls) s = do
  x ← get_account_currency l.account s
  rows ← reversal_rows ls s
  ok (
      record {
        account = in_currency x;
        debit = pos l.credit;
        credit = pos l.debit;
        party = l.party;
        staff = l.staff;
      }
      ∷ rows)

unfoldable pub reversal_journal :
    Clock → FinancialRecord → JournalEntry → ℕ → Books → Result (JournalEntry × Books)
unfolding reversal_rows
reversal_journal clock r original day s = do
  rows ← reversal_rows original.lines s
  journal clock r "REVERSE" rows (some day) (some original.id) s
