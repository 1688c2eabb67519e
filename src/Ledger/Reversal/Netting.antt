-- ===== src/Ledger/Reversal/Netting.antt =====
-- A reversal journal of ledger/services/reversals.py next to the journal that it reverses.
use holansl_backend.Base.{
  ℕ, ◌+◌, ◌≡◌, refl, sym, ap, subst, ◌∙◌, Option, none, some, List, [], ◌∷◌, map, String, ◌==◌,
  if◌then◌else◌, arith, find, All, ℤ, pos, negsuc, ok, >>=-eq-ok,
}
use holansl_backend.Ledger.Data.{
  Currency, AccountCurrency, JournalLine, JournalEntry, FinancialRecord, Books,
}
use holansl_backend.Ledger.Money.{amount}
use holansl_backend.Ledger.Money.Rounding.{amount_lem}
use holansl_backend.Ledger.Posting.{
  Row, Clock, in_currency, get_currency, make_line, prepare_row, add_line, prepare, journal,
}
use holansl_backend.Ledger.Posting.Balanced.{
  IsOneSided, journal-Posted, prepare-lem, prepare_row-PreparedRow,
}
use holansl_backend.Ledger.Reversal.{get_account_currency, reversal_rows, reversal_journal}

-- Rounding the sides again changes nothing.
abbrev pub IsRounded : Currency → JournalLine → Type 0
IsRounded c l =
    (amount (some c) (pos l.debit) ≡ ok (pos l.debit))
    × (amount (some c) (pos l.credit) ≡ ok (pos l.credit))

abbrev pub swap : JournalLine → JournalLine
swap l = record l { debit = l.credit; credit = l.debit }

abbrev IsRoundedLine : Currency → Option JournalLine → Type 0
IsRoundedLine c none = Unit
IsRoundedLine c (some l) = IsRounded c l

make_line-IsRounded :
    (c : Currency) (x : AccountCurrency) (row : Row) (d k : ℤ) (l : Option JournalLine)
    → amount (some c) d ≡ ok d
    → amount (some c) k ≡ ok k
    → make_line x row d k ≡ ok l
    → IsRoundedLine c l
unfolding make_line
make_line-IsRounded c x row d k none hd hk h = tt
make_line-IsRounded c x row (pos d) (pos k) (some l) hd hk h =
    let debit : d ≡ l.debit = ground arith in
    let credit : k ≡ l.credit = ground arith in
    (
      subst (λ n. amount (some c) (pos n) ≡ ok (pos n)) debit hd,
      subst (λ n. amount (some c) (pos n) ≡ ok (pos n)) credit hk,
    )
make_line-IsRounded c x row (pos d) (negsuc k) (some l) hd hk h = ground arith
make_line-IsRounded c x row (negsuc d) (pos k) (some l) hd hk h = ground arith
make_line-IsRounded c x row (negsuc d) (negsuc k) (some l) hd hk h = ground arith

add_line-IsRounded :
    (c : Currency) (line : Option JournalLine) (rest : List JournalLine)
    → IsRoundedLine c line
    → All (IsRounded c) rest
    → All (IsRounded c) (add_line line rest)
add_line-IsRounded c none rest h hs = hs
add_line-IsRounded c (some l) rest h hs = (h, hs)

pub prepare-IsRounded :
    (c : Currency) (rows : List Row) (s s' : Books) (lines : List JournalLine)
    → prepare c rows s ≡ ok (lines, s')
    → All (IsRounded c) lines
unfolding prepare
prepare-IsRounded c [] s s' lines h =
    let none_made : [] ≡ lines = ground (arith, h) in subst (All (IsRounded c)) none_made tt
prepare-IsRounded c (row ∷ rows) s s' lines h =
    let ((line, s₁), first, h₁) = >>=-eq-ok (prepare_row c row s) _ h in
    let ((rest, s₂), others, h₂) = >>=-eq-ok (prepare c rows s₁) _ h₁ in
    let same_lines : add_line line rest ≡ lines = ground (arith, h₂) in
    let p = prepare_row-PreparedRow c row s s₁ line first in
    let (_, _, _, _, debit) = amount_lem (some c) row.debit p.debit p.debit_made in
    let (_, _, _, _, credit) = amount_lem (some c) row.credit p.credit p.credit_made in
    subst (All (IsRounded c)) same_lines (
      add_line-IsRounded c line rest
        (make_line-IsRounded c p.account row p.debit p.credit line debit credit p.made)
        (prepare-IsRounded c rows s₁ s₂ rest others))

get_account_currency-id :
    (id : ℕ) (s : Books) (x : AccountCurrency) → get_account_currency id s ≡ ok x → x.id ≡ id
get_account_currency-id id s x h = go s.account_currencies (ground arith)
  where
    go : (xs : List AccountCurrency) → find (λ y. y.id == id) xs ≡ some x → x.id ≡ id
    go [] e = cc
    go (y ∷ ys) e = ground (arith, go ys)

abbrev reversal_row : JournalLine → AccountCurrency → Row
reversal_row l x = record {
  account = in_currency x;
  debit = pos l.credit;
  credit = pos l.debit;
  party = l.party;
  staff = l.staff;
}

swapped :
    (l : JournalLine) (x y : AccountCurrency) (d k : ℤ) (line : Option JournalLine)
    → x ≡ y
    → pos l.credit ≡ d
    → pos l.debit ≡ k
    → x.id ≡ l.account
    → IsOneSided l
    → make_line y (reversal_row l x) d k ≡ ok line
    → line ≡ some (swap l)
unfolding make_line
swapped l x y (pos d) (pos k) line same debit credit id one h = ground arith
swapped l x y (pos d) (negsuc k) line same debit credit id one h = ground arith
swapped l x y (negsuc d) (pos k) line same debit credit id one h = ground arith
swapped l x y (negsuc d) (negsuc k) line same debit credit id one h = ground arith

reversed_line :
    (c : Currency) (l : JournalLine) (x : AccountCurrency) (s s' : Books)
    (line : Option JournalLine)
    → x.id ≡ l.account
    → IsRounded c l
    → IsOneSided l
    → prepare_row c (reversal_row l x) s ≡ ok (line, s')
    → line ≡ some (swap l)
reversed_line c l x s s' line same rounded one h =
    let p = prepare_row-PreparedRow c (reversal_row l x) s s' line h in
    swapped l x p.account p.debit p.credit line (ground (arith, p.resolved))
      (ground (arith, rounded.1, p.debit_made)) (ground (arith, rounded.0, p.credit_made)) same one
      p.made

reversed_lines :
    (c : Currency) (ls : List JournalLine) (rows : List Row) (s b s' : Books)
    (lines : List JournalLine)
    → All (IsRounded c) ls
    → All IsOneSided ls
    → reversal_rows ls b ≡ ok rows
    → prepare c rows s ≡ ok (lines, s')
    → lines ≡ map swap ls
unfolding reversal_rows prepare
reversed_lines c [] rows s b s' lines rounded one r h =
    let none_given : rows ≡ [] = ground (arith, r) in
    let h' : prepare c [] s ≡ ok (lines, s') =
      subst (λ x. prepare c x s ≡ ok (lines, s')) none_given h in
    ground (arith, h')
reversed_lines c (l ∷ ls) rows s b s' lines rounded one r h =
    let (x, found, r₁) = >>=-eq-ok (get_account_currency l.account b) _ r in
    let (more, others, r₂) = >>=-eq-ok (reversal_rows ls b) _ r₁ in
    let given : rows ≡ reversal_row l x ∷ more = ground (arith, r₂) in
    let h' : prepare c (reversal_row l x ∷ more) s ≡ ok (lines, s') =
      subst (λ y. prepare c y s ≡ ok (lines, s')) given h in
    let ((line, s₁), first, h₁) = >>=-eq-ok (prepare_row c (reversal_row l x) s) _ h' in
    let ((rest, s₂), tail, h₂) = >>=-eq-ok (prepare c more s₁) _ h₁ in
    let same_lines : lines ≡ add_line line rest = ground (arith, h₂) in
    let head =
      reversed_line c l x s s₁ line (get_account_currency-id l.account b x found) rounded.0 one.0
        first in
    let others' = reversed_lines c ls more s₁ b s₂ rest rounded.1 one.1 others tail in
    same_lines ∙ ap (λ y. add_line y rest) head ∙ ap (λ y. swap l ∷ y) others'

ok-injective : {A : Type 0} {x y : A} → ok x ≡ ok y → x ≡ y
ok-injective h = ground arith

-- The sides of the lines of one account.
abbrev pub debits_of : ℕ → List JournalLine → ℕ
debits_of a [] = 0
debits_of a (l ∷ ls) = (if l.account == a then l.debit else 0) + debits_of a ls

abbrev pub credits_of : ℕ → List JournalLine → ℕ
credits_of a [] = 0
credits_of a (l ∷ ls) = (if l.account == a then l.credit else 0) + credits_of a ls

debits_of-swap : (a : ℕ) (ls : List JournalLine) → debits_of a (map swap ls) ≡ credits_of a ls
debits_of-swap a [] = refl
debits_of-swap a (l ∷ ls) =
    ap (λ n. (if l.account == a then l.credit else 0) + n) (debits_of-swap a ls)

credits_of-swap : (a : ℕ) (ls : List JournalLine) → credits_of a (map swap ls) ≡ debits_of a ls
credits_of-swap a [] = refl
credits_of-swap a (l ∷ ls) =
    ap (λ n. (if l.account == a then l.debit else 0) + n) (credits_of-swap a ls)

-- Reversing what was posted undoes it: where `journal` posted the entry `e`, and the reversal of `e` is
-- posted later while the record's currency is the same row, the lines of the reversal are those of `e`
-- with the sides swapped, it names `e`, and every account's debits and credits by both are equal.
pub journal-reversal_journal :
    (clock clock' : Clock) (r : FinancialRecord) (event : String) (rows : List Row)
    (day reversal_of : Option ℕ) (s : Books) (e : JournalEntry) (s₁ : Books) (later : ℕ)
    (s₂ : Books) (e' : JournalEntry) (s₃ : Books) (account : ℕ)
    → journal clock r event rows day reversal_of s ≡ ok (e, s₁)
    → get_currency r.currency s₂ ≡ get_currency r.currency s
    → reversal_journal clock' r e later s₂ ≡ ok (e', s₃)
    → (e'.lines ≡ map swap e.lines)
      × (e'.reversal_of ≡ some e.id)
      × (debits_of account e.lines + debits_of account e'.lines
          ≡ credits_of account e.lines + credits_of account e'.lines)
unfolding reversal_journal
journal-reversal_journal clock clock' r event rows day reversal_of s e s₁ later s₂ e' s₃ account h
      same back =
    let p = journal-Posted clock r event rows day reversal_of s e s₁ h in
    let (_, one) = prepare-lem p.currency rows s p.books e.lines p.prepared in
    let rounded = prepare-IsRounded p.currency rows s p.books e.lines p.prepared in
    let (rows', given, posted) = >>=-eq-ok (reversal_rows e.lines s₂) _ back in
    let q = journal-Posted clock' r "REVERSE" rows' (some later) (some e.id) s₂ e' s₃ posted in
    let currency : p.currency ≡ q.currency =
      ok-injective (sym p.has_currency ∙ sym same ∙ q.has_currency) in
    let lines =
      reversed_lines q.currency e.lines rows' s₂ s₂ q.books e'.lines
        (subst (λ c. All (IsRounded c) e.lines) currency rounded) one given q.prepared in
    let debit = ap (debits_of account) lines ∙ debits_of-swap account e.lines in
    let credit = ap (credits_of account) lines ∙ credits_of-swap account e.lines in
    (lines, q.reverses, omega (arith, debit, credit))
