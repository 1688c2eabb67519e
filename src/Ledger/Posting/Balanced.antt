-- ===== src/Ledger/Posting/Balanced.antt =====
-- What `journal` of ledger/services/posting.py writes.
use holansl_backend.Base.{
  ℕ, ◌≤◌, ◌≡◌, refl, sym, ap, subst, ◌∙◌, true, false, not, ◌&&◌, ◌||◌, Option, none, some, List,
  [], ◌∷◌, ◌++◌, String, ltb, leb, ◌==◌, arith, inl, inr, Option-cases, find, All, length, ℤ, pos,
  negsuc, check, validation_error, conflict, ok, >>=-eq-ok,
}
use holansl_backend.Ledger.Data.{
  Currency, AccountCurrency, AccountingPeriod, JournalLine, JournalEntry, FinancialRecord, Books,
  debits, credits,
}
use holansl_backend.Ledger.Money.{amount}
use holansl_backend.Ledger.Posting.{
  Target, Row, Clock, lock_period, get_currency, get_account, get_or_create, account_currency,
  resolve, is_parent, make_line, prepare_row, add_line, prepare, is_posted, day_or_date, journal,
  ledger_account, in_currency,
}

-- Exactly one side is positive.
abbrev pub IsOneSided : JournalLine → Type 0
IsOneSided l = (ltb 0 l.debit && l.credit == 0 || ltb 0 l.credit && l.debit == 0) ≡ true

-- At least two lines, each with one side, and the sides are equal.
pub record IsBalanced (e : JournalEntry) : Type 0 where
  pub two : 2 ≤ length e.lines
  pub equal : debits e.lines ≡ credits e.lines
  pub one_side : All IsOneSided e.lines

make_line-IsOneSided :
    (x : AccountCurrency) (row : Row) (d c : ℤ) (l : JournalLine)
    → make_line x row d c ≡ ok (some l)
    → IsOneSided l
unfolding make_line
make_line-IsOneSided x row (pos d) (pos c) l h = ground arith
make_line-IsOneSided x row (pos d) (negsuc c) l h = ground arith
make_line-IsOneSided x row (negsuc d) (pos c) l h = ground arith
make_line-IsOneSided x row (negsuc d) (negsuc c) l h = ground arith

-- The tables that preparing a row leaves alone.
abbrev pub Kept : Books → Books → Type 0
Kept s s' = (s'.entries ≡ s.entries) × (s'.accounts ≡ s.accounts) × (s'.currencies ≡ s.currencies)

get_or_create-Kept : (a c : ℕ) (s : Books) → Kept s (get_or_create a c s).1
get_or_create-Kept a c s =
    elim (Option-cases (find (λ x. x.account == a && x.currency == c) s.account_currencies)) [
      | inl e ↦ ground (arith, e)
      | inr (x, e) ↦ ground (arith, e)
    ]

Kept-trans : (s s₁ s₂ : Books) → Kept s s₁ → Kept s₁ s₂ → Kept s s₂
Kept-trans s s₁ s₂ h k = (k.0 ∙ h.0, k.1 ∙ h.1, k.2 ∙ h.2)

resolve-Kept :
    (row : Row) (c : Currency) (s s' : Books) (x : AccountCurrency)
    → resolve row.account c s ≡ ok (x, s')
    → Kept s s'
unfolding account_currency
resolve-Kept row c s s' x h = go row.account h
  where
    go : (t : Target) → resolve t c s ≡ ok (x, s') → Kept s s'
    go (in_currency y) h = ground arith
    go (ledger_account a) h =
        let made : s' ≡ (get_or_create a.id c.id s).1 = ground arith in
        subst (Kept s) (sym made) (get_or_create-Kept a.id c.id s)

-- A prepared line is one-sided, where there is one.
abbrev IsGood : Option JournalLine → Type 0
IsGood none = Unit
IsGood (some l) = IsOneSided l

-- The parts of preparing a row.
pub record PreparedRow (c : Currency) (row : Row) (s : Books) (line : Option JournalLine)
    (s' : Books) : Type 0 where
  pub account : AccountCurrency
  pub debit : ℤ
  pub credit : ℤ
  pub resolved : resolve row.account c s ≡ ok (account, s')
  pub debit_made : amount (some c) row.debit ≡ ok debit
  pub credit_made : amount (some c) row.credit ≡ ok credit
  pub made : make_line account row debit credit ≡ ok line

pub prepare_row-PreparedRow :
    (c : Currency) (row : Row) (s s' : Books) (line : Option JournalLine)
    → prepare_row c row s ≡ ok (line, s')
    → PreparedRow c row s line s'
unfolding prepare_row
prepare_row-PreparedRow c row s s' line h =
    let ((x, s₁), resolved, h₁) = >>=-eq-ok (resolve row.account c s) _ h in
    let (_, _, h₂) =
      >>=-eq-ok (check (x.currency == c.id) (validation_error "" "Journal currencies must match."))
        _ h₁ in
    let (a, _, h₃) = >>=-eq-ok (get_account x.account s₁) _ h₂ in
    let (_, _, h₄) =
      >>=-eq-ok
        (check (a.active && not (is_parent a.id s₁))
          (validation_error "" "Posting account must be an active leaf."))
        _ h₃ in
    let (d, debit_made, h₅) = >>=-eq-ok (amount (some c) row.debit) _ h₄ in
    let (k, credit_made, h₆) = >>=-eq-ok (amount (some c) row.credit) _ h₅ in
    let (l, made, h₇) = >>=-eq-ok (make_line x row d k) _ h₆ in
    let same_line : l ≡ line = ground (arith, h₇) in
    let same_books : s₁ ≡ s' = ground (arith, h₇) in
    record {
      account = x;
      debit = d;
      credit = k;
      resolved = resolved ∙ ap (λ b. ok (x, b)) same_books;
      debit_made = debit_made;
      credit_made = credit_made;
      made = made ∙ ap ok same_line;
    }

prepare_row-lem :
    (c : Currency) (row : Row) (s s' : Books) (line : Option JournalLine)
    → prepare_row c row s ≡ ok (line, s')
    → Kept s s' × IsGood line
prepare_row-lem c row s s' line h =
    let p = prepare_row-PreparedRow c row s s' line h in
    (resolve-Kept row c s s' p.account p.resolved, good line p.account p.debit p.credit p.made)
  where
    good :
        (line : Option JournalLine) (x : AccountCurrency) (d k : ℤ)
        → make_line x row d k ≡ ok line
        → IsGood line
    good none x d k m = tt
    good (some l) x d k m = make_line-IsOneSided x row d k l m

pub prepare-lem :
    (c : Currency) (rows : List Row) (s s' : Books) (lines : List JournalLine)
    → prepare c rows s ≡ ok (lines, s')
    → Kept s s' × All IsOneSided lines
unfolding prepare
prepare-lem c [] s s' lines h =
    let same : s ≡ s' = ground (arith, h) in
    let none_made : [] ≡ lines = ground (arith, h) in
    (subst (Kept s) same (refl, refl, refl), subst (All IsOneSided) none_made tt)
prepare-lem c (row ∷ rows) s s' lines h =
    let ((line, s₁), first, h₁) = >>=-eq-ok (prepare_row c row s) _ h in
    let ((rest, s₂), others, h₂) = >>=-eq-ok (prepare c rows s₁) _ h₁ in
    let same_lines : add_line line rest ≡ lines = ground (arith, h₂) in
    let same_books : s₂ ≡ s' = ground (arith, h₂) in
    let (kept₁, good) = prepare_row-lem c row s s₁ line first in
    let (kept₂, goods) = prepare-lem c rows s₁ s₂ rest others in
    (
      subst (Kept s) same_books (Kept-trans s s₁ s₂ kept₁ kept₂),
      subst (All IsOneSided) same_lines (add line rest good goods),
    )
  where
    add :
        (line : Option JournalLine) (rest : List JournalLine)
        → IsGood line
        → All IsOneSided rest
        → All IsOneSided (add_line line rest)
    add none rest g gs = gs
    add (some l) rest g gs = (g, gs)

-- What a posting was, in parts.
pub record Posted (clock : Clock) (r : FinancialRecord) (event : String) (rows : List Row)
    (day : Option ℕ) (reversal_of : Option ℕ) (s : Books) (e : JournalEntry) (s' : Books)
    : Type 0 where
  pub period : AccountingPeriod
  pub currency : Currency
  pub books : Books
  pub in_period : lock_period clock.today (day_or_date day r) s ≡ ok period
  pub has_currency : get_currency r.currency s ≡ ok currency
  pub fresh : is_posted r.id event s.entries ≡ false
  pub prepared : prepare currency rows s ≡ ok (e.lines, books)
  pub two : 2 ≤ length e.lines
  pub equal : debits e.lines ≡ credits e.lines
  pub source : e.source ≡ r.id
  pub event_kept : e.event ≡ event
  pub reverses : e.reversal_of ≡ reversal_of
  pub entries : s'.entries ≡ books.entries ++ e ∷ []

pub journal-Posted :
    (clock : Clock) (r : FinancialRecord) (event : String) (rows : List Row) (day : Option ℕ)
    (reversal_of : Option ℕ) (s : Books) (e : JournalEntry) (s' : Books)
    → journal clock r event rows day reversal_of s ≡ ok (e, s')
    → Posted clock r event rows day reversal_of s e s'
unfolding journal
journal-Posted clock r event rows day reversal_of s e s' h =
    let (period, in_period, h₁) = >>=-eq-ok (lock_period clock.today (day_or_date day r) s) _ h in
    let (currency, has_currency, h₂) = >>=-eq-ok (get_currency r.currency s) _ h₁ in
    let (_, active, h₃) =
      >>=-eq-ok (check currency.active (validation_error "" "Posting currency is inactive.")) _
        h₂ in
    let (_, fresh, h₄) =
      >>=-eq-ok
        (check (not (is_posted r.id event s.entries))
          (conflict "This source event was already posted."))
        _ h₃ in
    let ((lines, s₁), prepared, h₅) = >>=-eq-ok (prepare currency rows s) _ h₄ in
    let (_, balanced, h₆) =
      >>=-eq-ok
        (check (leb 2 (length lines) && debits lines == credits lines)
          (validation_error "" "Journal is not balanced."))
        _ h₅ in
    let two : 2 ≤ length lines = ground (arith, balanced) in
    let equal : debits lines ≡ credits lines = ground (arith, balanced) in
    let same : lines ≡ e.lines = ground (arith, h₆) in
    record {
      period = period;
      currency = currency;
      books = s₁;
      in_period = in_period;
      has_currency = has_currency;
      fresh = ground (arith, fresh);
      prepared = prepared ∙ ap (λ l. ok (l, s₁)) same;
      two = subst (λ l. 2 ≤ length l) same two;
      equal = subst (λ l. debits l ≡ credits l) same equal;
      source = ground (arith, h₆);
      event_kept = ground (arith, h₆);
      reverses = ground (arith, h₆);
      entries = ground (arith, h₆);
    }
