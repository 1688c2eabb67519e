-- ===== src/Ledger/Statement/Tests.antt =====
-- Two months of a client: an opening, an invoice, a receipt and its reversal.
use holansl_backend.Base.{
  ℕ, ◌+◌, ◌≡◌, refl, true, false, none, List, [], ◌∷◌, String, pos, negsuc, diff, ◌+ℤ◌, ◌-ℤ◌, ok,
}
use holansl_backend.Accounts.Data.{User}
use holansl_backend.Ledger.Access.{Guard, require}
use holansl_backend.Ledger.Samples.{books}
use holansl_backend.Ledger.Settlement.{Settlements}
use holansl_backend.Ledger.Statement.{ClientMovement, Statement, generate}
use holansl_backend.Ledger.Statement.Reconciled.{generate_reconciles, generate_follows}

abbrev clerk : User
clerk = record {
  id = 9;
  username = "clerk";
  full_name = "Clerk";
  email = "";
  is_authenticated = true;
  is_active = true;
  is_staff = true;
  is_superuser = false;
}

abbrev guard : Guard
guard = record { has_perm = λ u p. true; department_of = λ u. none }

abbrev tables : Settlements
tables = record {
  books = books;
  records = [];
  accounts = record { id = 1; party = 3; currency = 1 } ∷ [];
  sources = [];
  invoices = [];
  lines = [];
  allocations = [];
  collections = [];
  refunds = [];
  withheld = [];
  credited_lines = [];
  cash_receipts = [];
  next_id = 9;
}

abbrev movement : ℕ → ℕ → String → ℕ → ℕ → ClientMovement
movement id date kind debit credit = record {
  id = id;
  account = 1;
  source = id;
  date = date;
  kind = kind;
  debit = debit;
  credit = credit;
}

abbrev opening : ClientMovement
opening = movement 1 10 "OPENING" 500 0

abbrev invoice : ClientMovement
invoice = movement 2 20 "INVOICE" 900 0

abbrev receipt : ClientMovement
receipt = movement 3 15 "RECEIPT" 0 600

abbrev reversal : ClientMovement
reversal = movement 4 41 "RECEIPT_REVERSAL" 600 0

abbrev movements : List ClientMovement
movements = opening ∷ invoice ∷ receipt ∷ reversal ∷ []

abbrev first : Statement
first = record {
  date_from = 10;
  date_to = 40;
  opening_balance = pos 500;
  rows = (receipt, negsuc 99) ∷ (invoice, pos 800) ∷ [];
  totals = record {
    balance = pos 800;
    invoiced = 900;
    cash = 600;
    withheld = 0;
    debits = 0;
    credits = 0;
  };
  outstanding = [];
  unallocated = [];
}

abbrev second : Statement
second = record {
  date_from = 41;
  date_to = 70;
  opening_balance = pos 800;
  rows = (reversal, pos 1400) ∷ [];
  totals = record {
    balance = pos 1400;
    invoiced = 0;
    cash = 0;
    withheld = 0;
    debits = 600;
    credits = 0;
  };
  outstanding = [];
  unallocated = [];
}

makes : generate guard clerk 3 1 10 40 movements tables ≡ ok (first, tables)
unfolding generate require ◌-ℤ◌ ◌+ℤ◌
makes = refl

goes_on : generate guard clerk 3 1 41 70 movements tables ≡ ok (second, tables)
unfolding generate require ◌-ℤ◌ ◌+ℤ◌
goes_on = refl

generate_reconciles_example : pos 800 ≡ pos 500 +ℤ diff (900 + 0) (600 + 0 + 0)
generate_reconciles_example =
    generate_reconciles guard clerk 3 1 10 40 movements tables (refl, (refl, (refl, (refl, tt))))
      makes

generate_follows_example : pos 800 ≡ pos 800
generate_follows_example =
    generate_follows guard clerk 3 1 10 40 70 movements tables (refl, (refl, (refl, (refl, tt))))
      makes goes_on
