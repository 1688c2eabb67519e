-- ===== src/Ledger/Samples.antt =====
-- Small books for the tests of the ledger: two leaf accounts, an open period, and a receipt.
use holansl_backend.Base.{ℕ, true, false, Option, none, some, List, [], ◌∷◌, String, pos}
use holansl_backend.Ledger.Data.{
  Classification, Currency, LedgerAccount, JournalLine, JournalEntry, Kind, RecordStatus,
  FinancialRecord, Books,
}
use holansl_backend.Ledger.Posting.{ledger_account, Row, Clock}

abbrev pub naira : Currency
naira = record { id = 1; minor_units = 2; active = true }

abbrev pub bank : LedgerAccount
bank = record { id = 10; classification = Classification.asset; parent = none; active = true }

abbrev pub receivable : LedgerAccount
receivable = record { id = 20; classification = Classification.asset; parent = none; active = true }

abbrev pub books : Books
books = record {
  currencies = naira ∷ [];
  accounts = bank ∷ receivable ∷ [];
  account_currencies = [];
  periods = record { id = 1; start = 0; stop = 100; closed = false } ∷ [];
  entries = [];
  next_id = 100;
}

abbrev pub clock : Clock
clock = record { today = 50; now = 7 }

abbrev pub receipt : FinancialRecord
receipt = record {
  id = 5;
  kind = Kind.receipt;
  created_by = some 9;
  department = 2;
  party = some 3;
  currency = 1;
  date = 40;
  status = RecordStatus.approved;
  version = 1;
  amount = 1234600;
  net_amount = 0;
  tax_amount = 0;
}

-- 123.4567 from the client to the bank
abbrev pub rows : List Row
rows =
    record {
      account = ledger_account bank;
      debit = pos 1234567;
      credit = pos 0;
      party = some 3;
      staff = none;
    }
    ∷ record {
      account = ledger_account receivable;
      debit = pos 0;
      credit = pos 1234567;
      party = some 3;
      staff = none;
    }
    ∷ []

abbrev pub line : ℕ → ℕ → ℕ → JournalLine
line account debit credit = record {
  account = account;
  party = some 3;
  staff = none;
  debit = debit;
  credit = credit;
}

abbrev pub entry : ℕ → String → Option ℕ → List JournalLine → JournalEntry
entry id event reversal_of lines = record {
  id = id;
  date = 40;
  period = 1;
  currency = 1;
  source = 5;
  event = event;
  posted_at = some 7;
  reversal_of = reversal_of;
  lines = lines;
}

-- 123.46 on both sides
abbrev pub original : JournalEntry
original = entry 102 "POST" none (line 100 1234600 0 ∷ line 101 0 1234600 ∷ [])

abbrev pub after_posting : Books
after_posting = record books {
  account_currencies =
      record { id = 100; account = 10; currency = 1 }
      ∷ record { id = 101; account = 20; currency = 1 }
      ∷ [];
  entries = original ∷ [];
  next_id = 103;
}
