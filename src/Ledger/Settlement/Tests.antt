-- ===== src/Ledger/Settlement/Tests.antt =====
-- A posted receipt, allocated to an invoice with tax and released in part.
use holansl_backend.Base.{
  ◌≡◌, refl, true, false, none, some, [], ◌∷◌, pos, ◌-ℤ◌, strip, ok, arith, Bool-cases, ◌==◌, inl,
  inr,
}
use holansl_backend.Accounts.Data.{User}
use holansl_backend.Ledger.Data.{Kind, RecordStatus, FinancialRecord}
use holansl_backend.Ledger.Money.{amount}
use holansl_backend.Ledger.Access.{Guard, get_record, require}
use holansl_backend.Ledger.Posting.{lock_period}
use holansl_backend.Ledger.Samples.{books, receipt}
use holansl_backend.Ledger.Settlement.{AllocationEvent, Settlements, invoice_due, source_available}
use holansl_backend.Ledger.Settlement.Allocation.{allocate, collected_in, check_tax}
use holansl_backend.Ledger.Settlement.Release.{release, released, share, taken_back}
use holansl_backend.Ledger.Settlement.Bounds.{IsCovered}
use holansl_backend.Ledger.Settlement.Covered.{allocate-IsCovered, release-IsCovered}

abbrev clerk : User
clerk = record {
  id = 9;
  username = "clerk";
  full_name = "Clerk";
  email = "";
  is_authenticated = true;
  is_active = true;
  is_staff = true;
  is_superuser = false;
}

abbrev guard : Guard
guard = record { has_perm = λ u p. true; department_of = λ u. none }

abbrev received : FinancialRecord
received = record receipt { status = RecordStatus.posted; amount = 1000000 }

abbrev billed : FinancialRecord
billed = record received {
  id = 6;
  kind = Kind.invoice;
  amount = 600000;
  net_amount = 500000;
  tax_amount = 100000;
}

abbrev posted : Settlements
posted = record {
  books = books;
  records = received ∷ billed ∷ [];
  accounts = record { id = 1; party = 3; currency = 1 } ∷ [];
  sources = record { id = 1; record_id = 5; account = 1; amount = 1000000 } ∷ [];
  invoices = record { id = 1; record_id = 6 } ∷ [];
  lines = record { id = 1; invoice = 1; net = 500000; tax = 100000 } ∷ [];
  allocations = [];
  collections = [];
  refunds = [];
  withheld = [];
  credited_lines = [];
  cash_receipts = 5 ∷ [];
  next_id = 7;
}

-- 30 of the 60 that are due, with half of the tax
abbrev part : AllocationEvent
part = record {
  id = 7;
  source = 1;
  invoice = 1;
  date = 41;
  amount = 300000;
  release_of = none;
  tax_amount = 50000;
}

abbrev allocated : Settlements
allocated = record posted {
  allocations = part ∷ [];
  collections = record { allocation = 7; line = 1; amount = 50000 } ∷ [];
  next_id = 8;
}

-- 10 of the 30 are released: a third of the tax, to the kobo
abbrev returned : AllocationEvent
returned = record {
  id = 8;
  source = 1;
  invoice = 1;
  date = 42;
  amount = 100000;
  release_of = some 7;
  tax_amount = 16700;
}

abbrev after_release : Settlements
after_release = record allocated {
  allocations = part ∷ returned ∷ [];
  collections =
      record { allocation = 7; line = 1; amount = 50000 }
      ∷ record { allocation = 8; line = 1; amount = 16700 }
      ∷ [];
  next_id = 9;
}

allocates :
    allocate guard 50 clerk false 1 1
      (pos 300000)
      41
      (record { line = 1; amount = pos 50000 } ∷ [])
      posted
    ≡ ok (part, allocated)
unfolding allocate require get_record lock_period amount source_available ◌-ℤ◌ invoice_due
    collected_in check_tax
allocates = refl

releases :
    release guard 50 clerk false 7 (pos 100000) 42 "refund" allocated ≡ ok (returned, after_release)
unfolding release require get_record lock_period strip amount ◌-ℤ◌ released share taken_back
releases = refl

posted-IsCovered : IsCovered posted
unfolding invoice_due source_available ◌-ℤ◌
posted-IsCovered = record {
  invoices = λ id. elim (Bool-cases (1 == id)) [ inl y ↦ rw y (ground arith) | inr n ↦ rw n tt ];
  sources = λ id. elim (Bool-cases (1 == id)) [ inl y ↦ rw y (ground arith) | inr n ↦ rw n tt ];
  allocations = λ id. tt;
  keys = tt;
}

allocate-IsCovered_example : IsCovered allocated
allocate-IsCovered_example =
    allocate-IsCovered guard 50 clerk false 1 1 (pos 300000) 41
      (record { line = 1; amount = pos 50000 } ∷ []) posted posted-IsCovered allocates

release-IsCovered_example : IsCovered after_release
release-IsCovered_example =
    release-IsCovered guard 50 clerk false 7 (pos 100000) 42 "refund" allocated
      allocate-IsCovered_example releases
