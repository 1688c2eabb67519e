-- ===== src/Ledger/Settlement/Covered.antt =====
-- `allocate` and `release` of ledger/services/settlement.py.
use holansl_backend.Base.{
  ℕ, ◌<◌, ◌≡◌, refl, subst, Bool, ◌&&◌, none, some, List, [], ◌∷◌, String, arith, inl, inr,
  Option-cases, ◌==◌, ==_refl, if◌then◌else◌, find, All-find, ℤ, pos, diff, ◌-ℤ◌, ◌≤ℤ◌, leb_ℤ,
  check, validation_error, conflict, not_found, Result, ok, err, >>=-eq-ok,
}
use holansl_backend.Accounts.Data.{User}
use holansl_backend.Ledger.Data.{Currency}
use holansl_backend.Ledger.Access.{Guard, Permission, require, get_record}
use holansl_backend.Ledger.Settlement.{
  SettlementSource, Invoice, AllocationEvent, TaxCollectionAllocation, Settlements, signed,
  invoice_due, source_available, is_receipt, find_record,
}
use holansl_backend.Ledger.Settlement.Allocation.{
  TaxRow, find_source, find_invoice, add_allocation, plan_allocation, allocate,
}
use holansl_backend.Ledger.Settlement.Release.{
  find_allocation, remaining_of, split_tax, part_of, is_last, plan_release, release, components,
}
use holansl_backend.Ledger.Settlement.Bounds.{
  IsFor, IsOld, IsCovered, IsFor-every, found_by, IsCovered-add,
}
use holansl_backend.Ledger.Settlement.Plans.{
  Planned, plan_allocation-Planned, PlannedRelease, plan_release-PlannedRelease,
}

found_source :
    (id : ℕ) (s : Settlements) (x : SettlementSource)
    → find_source id s ≡ ok x
    → find (λ x. x.id == id) s.sources ≡ some x
found_source id s x h = elim (Option-cases (find (λ x. x.id == id) s.sources)) [
  | inl n ↦ ground (arith, n)
  | inr (y, f) ↦ ground (arith, f)
]

found_invoice :
    (id : ℕ) (s : Settlements) (x : Invoice)
    → find_invoice id s ≡ ok x
    → find (λ x. x.id == id) s.invoices ≡ some x
found_invoice id s x h = elim (Option-cases (find (λ x. x.id == id) s.invoices)) [
  | inl n ↦ ground (arith, n)
  | inr (y, f) ↦ ground (arith, f)
]

found_allocation :
    (id : ℕ) (s : Settlements) (x : AllocationEvent)
    → find_allocation id s ≡ ok x
    → find (λ x. x.id == id) s.allocations ≡ some x
found_allocation id s x h = elim (Option-cases (find (λ x. x.id == id) s.allocations)) [
  | inl n ↦ ground (arith, n)
  | inr (y, f) ↦ ground (arith, f)
]

add_allocation-IsCovered :
    (source : SettlementSource) (invoice : Invoice) (s : Settlements) (e : AllocationEvent)
    (cs : List TaxCollectionAllocation) (source_id invoice_id : ℕ)
    → IsCovered s
    → find_source source_id s ≡ ok source
    → find_invoice invoice_id s ≡ ok invoice
    → Planned source invoice s e
    → IsCovered (add_allocation e cs s)
add_allocation-IsCovered source invoice s e cs source_id invoice_id c f g p =
    let found : find (λ x. x.id == source_id) s.sources ≡ some source =
      found_source source_id s source f in
    let found' : find (λ x. x.id == invoice_id) s.invoices ≡ some invoice =
      found_invoice invoice_id s invoice g in
    let its_source : find (λ x. x.id == e.source) s.sources ≡ some source =
      found_by (λ x. x.id) s.sources e.source source_id found
        (rw p.source_id (==_refl source.id)) in
    let its_invoice : find (λ x. x.id == e.invoice) s.invoices ≡ some invoice =
      found_by (λ x. x.id) s.invoices e.invoice invoice_id found'
        (rw p.invoice_id (==_refl invoice.id)) in
    let gained : signed e ≡ pos e.amount = rw p.original refl in
    IsCovered-add e cs s c p.id (rw p.original tt) (rw (its_invoice, gained) p.due)
      (rw (its_source, gained) p.available) (λ k y. cc)

same_state :
    {e e' : AllocationEvent} {s s' : Settlements}
    → let before : AllocationEvent × Settlements = (e, s) in
      let after : AllocationEvent × Settlements = (e', s') in ok before ≡ ok after → s ≡ s'
same_state h = ground (arith, h)

-- Where `allocate` ends well, the keys of the events being older than the next key, and before it no invoice, source
-- or allocation was left with less than nothing, none is left so after it: no invoice is overpaid and no source is spent twice.
pub allocate-IsCovered :
    (g : Guard) (today : ℕ) (user : User) (internal : Bool) (source_id invoice_id : ℕ) (value : ℤ)
    (day : ℕ) (tax_lines : List TaxRow) (s : Settlements)
    → IsCovered s
    → {e : AllocationEvent} {s' : Settlements}
    → allocate g today user internal source_id invoice_id value day tax_lines s ≡ ok (e, s')
    → IsCovered s'
unfolding allocate
allocate-IsCovered g today user internal source_id invoice_id value day tax_lines s c {e} {s'} h =
    let (source, f, h₁) = >>=-eq-ok (find_source source_id s) _ h in
    let (invoice, i, h₂) = >>=-eq-ok (find_invoice invoice_id s) _ h₁ in
    let (receipt, _, h₃) =
      >>=-eq-ok
        (elim (find_record source.record_id s) as (λ _. Result Bool) [
          | none ↦ err (not_found "FinancialRecord")
          | some r ↦ ok (is_receipt r.kind)
        ])
        _ h₂ in
    let (_, _, h₄) =
      >>=-eq-ok
        (if internal
          then ok tt
          else require g user (
              if receipt
              then Permission.allocate_receipt
              else Permission.allocate_settlementsource))
        _ h₃ in
    let (source_record, _, h₅) =
      >>=-eq-ok (get_record g user source.record_id "view" s.records) _ h₄ in
    let (target, _, h₆) = >>=-eq-ok (get_record g user invoice.record_id "view" s.records) _ h₅ in
    let ((e', cs), planned, h₇) =
      >>=-eq-ok (plan_allocation today source source_record invoice target value day tax_lines s) _
        h₆ in
    let same_event : e' ≡ e = ground (arith, h₇) in
    let made : add_allocation e' cs s ≡ s' = ground (arith, h₇) in
    subst IsCovered made (
      add_allocation-IsCovered source invoice s e' cs source_id invoice_id c f i (
        plan_allocation-Planned today source source_record invoice target value day tax_lines s e'
          cs planned))

collect-IsCovered :
    (cs : List TaxCollectionAllocation) (s : Settlements)
    → IsCovered s
    → IsCovered (record s { collections = cs })
unfolding invoice_due source_available
collect-IsCovered cs s c = record {
  invoices = c.invoices;
  sources = c.sources;
  allocations = c.allocations;
  keys = c.keys;
}

split_tax-IsCovered :
    (c : Currency) (a : AllocationEvent) (event tax : ℕ) (rows : List TaxCollectionAllocation)
    (left : ℤ) (s : Settlements) {rest : ℤ} {s' : Settlements}
    → split_tax c a event tax left rows s ≡ ok (rest, s')
    → IsCovered s
    → IsCovered s'
unfolding split_tax
split_tax-IsCovered c a event tax [] left s {rest} {s'} h covered =
    let same : s ≡ s' = ground (arith, h) in subst IsCovered same covered
split_tax-IsCovered c a event tax (row ∷ rows) left s h covered =
    let (_, _, h₁) =
      >>=-eq-ok
        (check (leb_ℤ (pos 0) (part_of c a tax left (is_last rows) row s))
          (conflict "ledger_tax_collection_positive"))
        _ h in
    split_tax-IsCovered c a event tax rows (left -ℤ part_of c a tax left (is_last rows) row s) _ h₁
      (collect-IsCovered _ s covered)

add_release-IsCovered :
    (a : AllocationEvent) (s : Settlements) (e : AllocationEvent)
    (cs : List TaxCollectionAllocation) (id : ℕ)
    → IsCovered s
    → find_allocation id s ≡ ok a
    → PlannedRelease a s e
    → IsCovered (add_allocation e cs s)
add_release-IsCovered a s e cs id c f p =
    let found = found_allocation id s a f in
    let itself : find (λ x. x.id == a.id) s.allocations ≡ some a =
      found_by (λ x. x.id) s.allocations a.id id found (==_refl a.id) in
    let older : a.id < s.next_id =
      (All-find (IsOld s.next_id) (λ x. x.id == id) s.allocations c.keys found).0 in
    let given : signed e ≡ diff 0 e.amount = rw p.of_original refl in
    IsCovered-add e cs s c p.id (rw p.of_original older)
      (IsFor-every _ (find (λ x. x.id == e.invoice) s.invoices) (λ i g.
        let before : pos 0 ≤ℤ invoice_due i none s =
          subst (IsFor (λ i. pos 0 ≤ℤ invoice_due i none s)) g (c.invoices e.invoice) in
        rw given (give_back e.amount (invoice_due i none s) before)))
      (IsFor-every _ (find (λ x. x.id == e.source) s.sources) (λ x g.
        let before : pos 0 ≤ℤ source_available x none s =
          subst (IsFor (λ x. pos 0 ≤ℤ source_available x none s)) g (c.sources e.source) in
        rw given (give_back e.amount (source_available x none s) before)))
      (λ k y.
        let this : a.id ≡ k = ground (arith, y, p.of_original) in
        let holds : IsFor (λ a. pos e.amount ≤ℤ remaining_of a s)
            (find (λ x. x.id == a.id) s.allocations) =
          rw itself p.left in
        subst
          (λ k. IsFor (λ a. pos e.amount ≤ℤ remaining_of a s) (find (λ x. x.id == k) s.allocations))
          this holds)
  where
    give_back : (n : ℕ) (x : ℤ) → pos 0 ≤ℤ x → diff 0 n ≤ℤ x
    give_back n x h = ground arith

-- Where `release` ends well, the keys of the events being older than the next key, and before it no invoice, source
-- or allocation was left with less than nothing, none is left so after it: no more is released than was allocated.
pub release-IsCovered :
    (g : Guard) (today : ℕ) (user : User) (internal : Bool) (allocation_id : ℕ) (value : ℤ)
    (day : ℕ) (reason : String) (s : Settlements)
    → IsCovered s
    → {e : AllocationEvent} {s' : Settlements}
    → release g today user internal allocation_id value day reason s ≡ ok (e, s')
    → IsCovered s'
unfolding release
release-IsCovered g today user internal allocation_id value day reason s c {e} {s'} h =
    let (a, f, h₁) = >>=-eq-ok (find_allocation allocation_id s) _ h in
    let (source, _, h₂) = >>=-eq-ok (find_source a.source s) _ h₁ in
    let (invoice, _, h₃) = >>=-eq-ok (find_invoice a.invoice s) _ h₂ in
    let (receipt, _, h₄) =
      >>=-eq-ok
        (elim (find_record source.record_id s) as (λ _. Result Bool) [
          | none ↦ err (not_found "FinancialRecord")
          | some r ↦ ok (is_receipt r.kind)
        ])
        _ h₃ in
    let (_, _, h₅) =
      >>=-eq-ok
        (if internal
          then ok tt
          else require g user (
              if receipt
              then Permission.allocate_receipt
              else Permission.allocate_settlementsource))
        _ h₄ in
    let (target, _, h₆) = >>=-eq-ok (get_record g user invoice.record_id "view" s.records) _ h₅ in
    let (source_record, _, h₇) =
      >>=-eq-ok (get_record g user source.record_id "view" s.records) _ h₆ in
    let ((currency, e'), planned, h₈) =
      >>=-eq-ok (plan_release today source target a value day reason s) _ h₇ in
    let ((left, s₁), split, h₉) =
      >>=-eq-ok
        (split_tax currency a e'.id e'.tax_amount (pos e'.tax_amount) (components a.id s)
          (add_allocation e' [] s))
        _ h₈ in
    let (_, _, h₁₀) =
      >>=-eq-ok
        (check (leb_ℤ left (pos 0) && leb_ℤ (pos 0) left)
          (validation_error "" "Tax release cannot be apportioned exactly."))
        _ h₉ in
    let same : s₁ ≡ s' = same_state h₁₀ in
    let p = plan_release-PlannedRelease today source target a value day reason s planned in
    subst IsCovered same (
      split_tax-IsCovered currency a e'.id e'.tax_amount (components a.id s) (pos e'.tax_amount)
        (add_allocation e' [] s) split (add_release-IsCovered a s e' [] allocation_id c f p))
