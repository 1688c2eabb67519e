-- ===== src/Ledger/Settlement/Plans.antt =====
-- What `allocate` and `release` of ledger/services/settlement.py have checked when they make an event.
use holansl_backend.Base.{
  ℕ, ◌≡◌, refl, subst, false, not, ◌&&◌, none, some, List, [], String, arith, strip, is_empty, leb,
  ◌==◌, is_some, any, contains, ℤ, pos, gain, ◌≤ℤ◌, leb_ℤ, ltb_ℤ, check, validation_error, conflict,
  ok, >>=-eq-ok,
}
use holansl_backend.Ledger.Data.{Currency, FinancialRecord}
use holansl_backend.Ledger.Money.{amount}
use holansl_backend.Ledger.Posting.{lock_period, get_currency}
use holansl_backend.Ledger.Settlement.{
  SettlementSource, Invoice, AllocationEvent, TaxCollectionAllocation, Settlements, invoice_due,
  source_available, is_posted, is_receipt,
}
use holansl_backend.Ledger.Settlement.Allocation.{
  TaxRow, not_before_events, check_tax_rows, check_tax, tax_total, plan_allocation,
}
use holansl_backend.Ledger.Settlement.Release.{remaining_of, released_share, plan_release}

-- What a planned allocation is, and what it passed.
pub record Planned (source : SettlementSource) (invoice : Invoice) (s : Settlements)
    (e : AllocationEvent) : Type 0 where
  pub id : e.id ≡ s.next_id
  pub source_id : e.source ≡ source.id
  pub invoice_id : e.invoice ≡ invoice.id
  pub original : e.release_of ≡ none
  pub available : pos e.amount ≤ℤ source_available source none s
  pub due : pos e.amount ≤ℤ invoice_due invoice none s

within_two :
    (v a b : ℤ) (m : String) {u : Unit {0}}
    → check (ltb_ℤ (pos 0) v && leb_ℤ v a && leb_ℤ v b) (validation_error "" m) ≡ ok u
    → (pos (gain v) ≤ℤ a) × (pos (gain v) ≤ℤ b)
within_two v a b m h = (ground arith, ground arith)

within_one :
    (v a : ℤ) (m : String) {u : Unit {0}}
    → check (ltb_ℤ (pos 0) v && leb_ℤ v a) (validation_error "" m) ≡ ok u
    → pos (gain v) ≤ℤ a
within_one v a m h = ground arith

pub plan_allocation-Planned :
    (today : ℕ) (source : SettlementSource) (source_record : FinancialRecord) (invoice : Invoice)
    (target : FinancialRecord) (value : ℤ) (day : ℕ) (tax_lines : List TaxRow) (s : Settlements)
    (e : AllocationEvent) (cs : List TaxCollectionAllocation)
    → plan_allocation today source source_record invoice target value day tax_lines s ≡ ok (e, cs)
    → Planned source invoice s e
unfolding plan_allocation
plan_allocation-Planned today source source_record invoice target value day tax_lines s e cs h =
    let (_, _, h₁) = >>=-eq-ok (lock_period today day s.books) _ h in
    let (_, _, h₂) =
      >>=-eq-ok
        (check (is_posted source_record.status && is_posted target.status)
          (validation_error "" "Both settlement source and invoice must be posted."))
        _ h₁ in
    let (_, _, h₃) =
      >>=-eq-ok
        (check
          (any
            (λ a.
              a.id == source.account
              && elim target.party [ none ↦ false | some p ↦ a.party == p ]
              && a.currency == target.currency)
            s.accounts)
          (validation_error "" "Allocation client/currency must match."))
        _ h₂ in
    let (_, _, h₄) =
      >>=-eq-ok
        (check (leb source_record.date day && leb target.date day)
          (validation_error "" "Allocation cannot precede its source or invoice."))
        _ h₃ in
    let (_, _, h₅) =
      >>=-eq-ok
        (check (not_before_events source.account day s) (
          validation_error ""
            "Allocation changes cannot predate the latest client allocation event."))
        _ h₄ in
    let (currency, _, h₆) = >>=-eq-ok (get_currency target.currency s.books) _ h₅ in
    let (v, _, h₇) = >>=-eq-ok (amount (some currency) value) _ h₆ in
    let (_, fits, h₈) =
      >>=-eq-ok
        (check
          (ltb_ℤ (pos 0) v
            && leb_ℤ v (source_available source none s)
            && leb_ℤ v (invoice_due invoice none s))
          (validation_error "" "Amount exceeds available settlement or outstanding invoice."))
        _ h₇ in
    let (rows, _, h₉) = >>=-eq-ok (check_tax_rows currency invoice.id [] tax_lines s) _ h₈ in
    let (_, _, h₁₀) =
      >>=-eq-ok
        (check (leb_ℤ (pos (tax_total rows)) v)
          (validation_error "" "Tax cannot exceed cash applied."))
        _ h₉ in
    let (_, _, h₁₁) =
      >>=-eq-ok
        (check_tax (is_receipt source_record.kind && contains source_record.id s.cash_receipts) v
          invoice rows s)
        _ h₁₀ in
    let made : record {
      id = s.next_id;
      source = source.id;
      invoice = invoice.id;
      date = day;
      amount = gain v;
      release_of = none;
      tax_amount = tax_total rows;
    }
        ≡ e =
      ground (arith, h₁₁) in
    let (available, due) =
      within_two v (source_available source none s) (invoice_due invoice none s)
        "Amount exceeds available settlement or outstanding invoice." fits in
    subst (Planned source invoice s) made (record {
      id = refl;
      source_id = refl;
      invoice_id = refl;
      original = refl;
      available = available;
      due = due;
    })

-- What a planned release is, and what it passed.
pub record PlannedRelease (a : AllocationEvent) (s : Settlements) (e : AllocationEvent)
    : Type 0 where
  pub id : e.id ≡ s.next_id
  pub source_id : e.source ≡ a.source
  pub invoice_id : e.invoice ≡ a.invoice
  pub of_original : e.release_of ≡ some a.id
  pub left : pos e.amount ≤ℤ remaining_of a s

pub plan_release-PlannedRelease :
    (today : ℕ) (source : SettlementSource) (target : FinancialRecord) (a : AllocationEvent)
    (value : ℤ) (day : ℕ) (reason : String) (s : Settlements) {currency : Currency}
    {e : AllocationEvent}
    → plan_release today source target a value day reason s ≡ ok (currency, e)
    → PlannedRelease a s e
unfolding plan_release
plan_release-PlannedRelease today source target a value day reason s {e = e} h =
    let (_, _, h₁) = >>=-eq-ok (lock_period today day s.books) _ h in
    let (_, _, h₂) =
      >>=-eq-ok
        (check (not (is_some a.release_of) && not (is_empty (strip reason)))
          (validation_error "" "Release an original allocation with a reason."))
        _ h₁ in
    let (currency, _, h₃) = >>=-eq-ok (get_currency target.currency s.books) _ h₂ in
    let (v, _, h₄) = >>=-eq-ok (amount (some currency) value) _ h₃ in
    let (_, fits, h₅) =
      >>=-eq-ok
        (check (ltb_ℤ (pos 0) v && leb_ℤ v (remaining_of a s))
          (validation_error "" "Release exceeds active allocation."))
        _ h₄ in
    let (_, _, h₆) =
      >>=-eq-ok
        (check (leb a.date day && not_before_events source.account day s)
          (validation_error "" "Release cannot predate the latest allocation."))
        _ h₅ in
    let (_, _, h₇) =
      >>=-eq-ok
        (check (leb_ℤ (pos 0) (released_share currency a v s))
          (conflict "ledger_allocation_positive"))
        _ h₆ in
    let made : record {
      id = s.next_id;
      source = a.source;
      invoice = a.invoice;
      date = day;
      amount = gain v;
      release_of = some a.id;
      tax_amount = gain (released_share currency a v s);
    }
        ≡ e =
      ground (arith, h₇) in
    let left = within_one v (remaining_of a s) "Release exceeds active allocation." fits in
    subst (PlannedRelease a s) made
      (record { id = refl; source_id = refl; invoice_id = refl; of_original = refl; left = left })
