-- ===== src/Ledger/Statement/Reconciled.antt =====
-- The figures of one statement and of the next, by `generate` of ledger/selectors/statements.py.
use holansl_backend.Base.{
  ℕ, ◌+◌, ◌≤◌, ◌≡◌, refl, sym, ap, subst, ◌∙◌, true, false, not, ◌&&◌, ◌||◌, some, List, [], ◌∷◌,
  ◌++◌, arith, inl, inr, leb, ◌==◌, ==_refl, Option-cases, find, find-snoc, select, any, All, diff,
  ◌+ℤ◌, +ℤ-zero, check, validation_error, ok, >>=-eq-ok,
}
use holansl_backend.Accounts.Data.{User}
use holansl_backend.Ledger.Access.{Guard, Permission, require}
use holansl_backend.Ledger.Settlement.{ClientAccount, Settlements}
use holansl_backend.Ledger.Statement.{
  ClientMovement, is_opening, by_date, net, is_before, is_within, add_rows, Statement,
  client_account, outstanding_of, unallocated_of, statement_of, generate,
}
use holansl_backend.Ledger.Statement.Sums.{
  is_plain, by_date-All, select-All, add_rows-explained, add_rows-balance, net-split, net-next,
}

-- The account's rows, in their order.
abbrev rows_of : ℕ → ℕ → List ClientMovement → Settlements → List ClientMovement
rows_of party currency movements s =
    by_date (select (λ r. r.account == ((client_account party currency s).0).id) movements)

-- The parts of a statement that was made.
record IsMade (party currency date_from date_to : ℕ) (movements : List ClientMovement)
    (s : Settlements) (st : Statement) (s' : Settlements) : Type 0 where
  ordered : date_from ≤ date_to
  opening :
      st.opening_balance ≡ net (select (is_before date_from) (rows_of party currency movements s))
  totals :
      st.totals
      ≡ (add_rows
          (select (is_within date_from date_to) (rows_of party currency movements s))
          (record {
            balance = st.opening_balance;
            invoiced = 0;
            cash = 0;
            withheld = 0;
            debits = 0;
            credits = 0;
          })).1
  state : s' ≡ (client_account party currency s).1

generate-IsMade :
    (g : Guard) (user : User) (party currency date_from date_to : ℕ)
    (movements : List ClientMovement) (s : Settlements) {st : Statement} {s' : Settlements}
    → generate g user party currency date_from date_to movements s ≡ ok (st, s')
    → IsMade party currency date_from date_to movements s st s'
unfolding generate
generate-IsMade g user party currency date_from date_to movements s {st} {s'} h =
    let (_, _, h₁) = >>=-eq-ok (require g user Permission.view_clientstatement) _ h in
    let (_, _, h₂) = >>=-eq-ok (require g user Permission.viewall_financialrecord) _ h₁ in
    let (_, range, h₃) =
      >>=-eq-ok
        (check (leb date_from date_to)
          (validation_error "" "End date must not precede start date."))
        _ h₂ in
    let all_rows = rows_of party currency movements s in
    let (_, _, h₄) =
      >>=-eq-ok
        (check
          (not (any is_opening all_rows)
            || any (λ r. is_opening r && leb r.date date_from) all_rows)
          (validation_error "" "Selected range precedes available opening history."))
        _ h₃ in
    let taken : Settlements = (client_account party currency s).1 in
    let account : ℕ = ((client_account party currency s).0).id in
    let made : Statement =
      statement_of date_from date_to all_rows (outstanding_of party currency date_to taken)
        (unallocated_of account date_to taken) in
    let is_it : made ≡ st = ground (arith, h₄) in
    let left : taken ≡ s' = ground (arith, h₄) in
    subst (λ x. IsMade party currency date_from date_to movements s x s') is_it
      (record { ordered = ground (arith, range); opening = refl; totals = refl; state = sym left })

-- A statement reconciles: where invoices stand on the debit side and receipts and withholdings on the
-- credit side, its closing balance is the opening balance with what was invoiced and otherwise debited, less the
-- cash, the tax withheld and what was otherwise credited.
pub generate_reconciles :
    (g : Guard) (user : User) (party currency date_from date_to : ℕ)
    (movements : List ClientMovement) (s : Settlements) {st : Statement} {s' : Settlements}
    → All (λ r. is_plain r ≡ true) movements
    → generate g user party currency date_from date_to movements s ≡ ok (st, s')
    → st.totals.balance
      ≡ st.opening_balance
        +ℤ diff
            (st.totals.invoiced + st.totals.debits)
            (st.totals.cash + st.totals.withheld + st.totals.credits)
generate_reconciles g user party currency date_from date_to movements s {st} plain h =
    let m = generate-IsMade g user party currency date_from date_to movements s h in
    let rows = rows_of party currency movements s in
    let fine =
      by_date-All (λ r. is_plain r ≡ true) _
        (select-All (λ r. is_plain r ≡ true)
          (λ r. r.account == ((client_account party currency s).0).id) movements plain) in
    rw m.totals (
      add_rows-explained st.opening_balance (select (is_within date_from date_to) rows) _
        (select-All (λ r. is_plain r ≡ true) (is_within date_from date_to) rows fine)
        (sym (+ℤ-zero st.opening_balance)))

client_account-found :
    (party currency : ℕ) (s : Settlements) (a : ClientAccount)
    → find (λ a. a.party == party && a.currency == currency) s.accounts ≡ some a
    → client_account party currency s ≡ (a, s)
client_account-found party currency s a f = rw (client_account, f) refl

client_account-again :
    (party currency : ℕ) (s : Settlements)
    → (client_account party currency (client_account party currency s).1).0
      ≡ (client_account party currency s).0
client_account-again party currency s =
    elim (Option-cases (find (λ a. a.party == party && a.currency == currency) s.accounts)) [
      | inr (a, f) ↦
          let here = client_account-found party currency s a f in rw here (ap (λ x. x.0) here)
      | inl n ↦
          let a : ClientAccount = record { id = s.next_id; party = party; currency = currency } in
          let s' : Settlements = record s {
            accounts = s.accounts ++ a ∷ [];
            next_id = s.next_id + 1;
          } in
          let here : client_account party currency s ≡ (a, s') = rw (client_account, n) refl in
          let added : find (λ a. a.party == party && a.currency == currency) s'.accounts ≡ some a =
            rw
              (
                find-snoc (λ a. a.party == party && a.currency == currency) s.accounts a,
                n,
                ==_refl party,
                ==_refl currency,
              )
              refl in
          rw here (ap (λ x. x.0) (client_account-found party currency s' a added))
    ]

-- Statements follow on: where no opening is on the day after the first statement's range, the statement from that
-- day on opens with the balance that the first one closes with.
pub generate_follows :
    (g : Guard) (user : User) (party currency date_from date_to later : ℕ)
    (movements : List ClientMovement) (s : Settlements) {st : Statement} {s₁ : Settlements}
    {next : Statement} {s₂ : Settlements}
    → All (λ r. (is_opening r && r.date == date_to + 1) ≡ false) movements
    → generate g user party currency date_from date_to movements s ≡ ok (st, s₁)
    → generate g user party currency (date_to + 1) later movements s₁ ≡ ok (next, s₂)
    → next.opening_balance ≡ st.totals.balance
generate_follows g user party currency date_from date_to later movements s {st} {s₁} {next} plain h
      h' =
    let m = generate-IsMade g user party currency date_from date_to movements s h in
    let m' = generate-IsMade g user party currency (date_to + 1) later movements s₁ h' in
    let rows = rows_of party currency movements s in
    let same : rows_of party currency movements s₁ ≡ rows =
      ap (λ k. by_date (select (λ r. r.account == k) movements))
        (ap (λ s₁. ((client_account party currency s₁).0).id) m.state
          ∙ ap (λ a. a.id) (client_account-again party currency s)) in
    let fine : All (λ r. (is_opening r && r.date == date_to + 1) ≡ false) rows =
      by_date-All (λ r. (is_opening r && r.date == date_to + 1) ≡ false) _
        (select-All (λ r. (is_opening r && r.date == date_to + 1) ≡ false)
          (λ r. r.account == ((client_account party currency s).0).id) movements plain) in
    let closing : st.totals.balance ≡ net (select (λ r. leb r.date date_to) rows) =
      ap (λ t. t.balance) m.totals
      ∙ add_rows-balance (select (is_within date_from date_to) rows) _
      ∙ ap (λ o. o +ℤ net (select (is_within date_from date_to) rows)) m.opening
      ∙ net-split date_from date_to rows m.ordered in
    m'.opening
    ∙ ap (λ x. net (select (is_before (date_to + 1)) x)) same
    ∙ net-next date_to rows fine
    ∙ sym closing
