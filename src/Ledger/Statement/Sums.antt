-- ===== src/Ledger/Statement/Sums.antt =====
-- Sums over the rows of an account, in and before a range of days.
use text.Mathlib.Text.{◌==◌ as ◌=ₛ◌}
use holansl_backend.Base.{
  ℕ, ◌+◌, ◌≤◌, ◌≡◌, refl, sym, Bool, true, false, not, ◌&&◌, ◌||◌, List, [], ◌∷◌, arith, inl, inr,
  leb, ◌==◌, Bool-cases, select, All, ℤ, pos, diff, ◌+ℤ◌, ◌-ℤ◌, +ℤ-parts, -ℤ-parts, ℤ-ext, zero-+ℤ,
  +ℤ-zero, +ℤ_assoc,
}
use holansl_backend.Ledger.Statement.{
  ClientMovement, is_opening, insert_by_date, by_date, net, is_before, is_within, Totals, add_row,
  add_rows,
}

-- An invoice is on the debit side, a receipt and a withholding on the credit side, as `post` writes them.
abbrev pub is_plain : ClientMovement → Bool
is_plain r =
    (not (r.kind =ₛ "INVOICE") || r.credit == 0)
    && (not (r.kind =ₛ "RECEIPT" || r.kind =ₛ "WITHHOLDING") || r.debit == 0)

-- What the totals make of an opening balance.
abbrev pub explained : ℤ → Totals → ℤ
explained opening t = opening +ℤ diff (t.invoiced + t.debits) (t.cash + t.withheld + t.credits)

insert-All :
    (P : ClientMovement → Type 0) (r : ClientMovement) (xs : List ClientMovement)
    → P r
    → All P xs
    → All P (insert_by_date r xs)
insert-All P r [] p h = (p, tt)
insert-All P r (x ∷ xs) p h = elim (Bool-cases (leb r.date x.date)) [
  | inl y ↦ rw y (p, h)
  | inr n ↦ rw n (h.0, insert-All P r xs p h.1)
]

pub by_date-All :
    (P : ClientMovement → Type 0) (xs : List ClientMovement) → All P xs → All P (by_date xs)
unfolding by_date
by_date-All P [] h = tt
by_date-All P (x ∷ xs) h = insert-All P x (by_date xs) h.0 (by_date-All P xs h.1)

pub select-All :
    (P : ClientMovement → Type 0) (q : ClientMovement → Bool) (xs : List ClientMovement)
    → All P xs
    → All P (select q xs)
select-All P q [] h = tt
select-All P q (x ∷ xs) h = elim (Bool-cases (q x)) [
  | inl y ↦ rw y (h.0, select-All P q xs h.1)
  | inr n ↦ rw n (select-All P q xs h.1)
]

add_diff :
    (o : ℤ) (m n m' n' d c : ℕ)
    → m' + n + c ≡ m + d + n'
    → o +ℤ diff m n +ℤ (pos d -ℤ pos c) ≡ o +ℤ diff m' n'
add_diff o m n m' n' d c h = ground (
  arith,
  h,
  ℤ-ext (o +ℤ diff m n +ℤ (pos d -ℤ pos c)) (o +ℤ diff m' n'),
  +ℤ-parts (o +ℤ diff m n) (pos d -ℤ pos c),
  +ℤ-parts o (diff m n),
  +ℤ-parts o (diff m' n'),
  -ℤ-parts (pos d) (pos c),
)

add_row-explained :
    (opening : ℤ) (r : ClientMovement) (t : Totals)
    → is_plain r ≡ true
    → t.balance ≡ explained opening t
    → (add_row r t).balance ≡ explained opening (add_row r t)
unfolding add_row
add_row-explained opening r t plain before = elim (Bool-cases (r.kind =ₛ "INVOICE")) [
  | inl y ↦
      let blank : r.credit ≡ 0 = ground (arith, y, plain) in
      rw (y, before) (add_diff opening _ _ _ _ r.debit r.credit (omega (arith, blank)))
  | inr n ↦ elim (Bool-cases (r.kind =ₛ "RECEIPT")) [
    | inl y ↦
        let blank : r.debit ≡ 0 = ground (arith, y, plain) in
        rw (n, y, before) (add_diff opening _ _ _ _ r.debit r.credit (omega (arith, blank)))
    | inr m ↦ elim (Bool-cases (r.kind =ₛ "WITHHOLDING")) [
      | inl y ↦
          let blank : r.debit ≡ 0 = ground (arith, y, plain) in
          rw (n, m, y, before) (add_diff opening _ _ _ _ r.debit r.credit (omega (arith, blank)))
      | inr o ↦ rw (n, m, o, before) (add_diff opening _ _ _ _ r.debit r.credit (omega arith))
    ]
  ]
]

pub add_rows-explained :
    (opening : ℤ) (rs : List ClientMovement) (t : Totals)
    → All (λ r. is_plain r ≡ true) rs
    → t.balance ≡ explained opening t
    → ((add_rows rs t).1).balance ≡ explained opening (add_rows rs t).1
unfolding add_rows
add_rows-explained opening [] t h before = before
add_rows-explained opening (r ∷ rs) t h before =
    add_rows-explained opening rs (add_row r t) h.1 (add_row-explained opening r t h.0 before)

add_row-balance :
    (r : ClientMovement) (t : Totals)
    → (add_row r t).balance ≡ t.balance +ℤ (pos r.debit -ℤ pos r.credit)
unfolding add_row
add_row-balance r t = elim (Bool-cases (r.kind =ₛ "INVOICE")) [
  | inl y ↦ rw y refl
  | inr n ↦ elim (Bool-cases (r.kind =ₛ "RECEIPT")) [
    | inl y ↦ rw (n, y) refl
    | inr m ↦ elim (Bool-cases (r.kind =ₛ "WITHHOLDING")) [
      | inl y ↦ rw (n, m, y) refl
      | inr o ↦ rw (n, m, o) refl
    ]
  ]
]

pub add_rows-balance :
    (rs : List ClientMovement) (t : Totals) → ((add_rows rs t).1).balance ≡ t.balance +ℤ net rs
unfolding add_rows net
add_rows-balance [] t = sym (+ℤ-zero t.balance)
add_rows-balance (r ∷ rs) t =
    rw (add_rows-balance rs (add_row r t), add_row-balance r t)
      (sym (+ℤ_assoc t.balance (pos r.debit -ℤ pos r.credit) (net rs)))

swap_first : (a v b : ℤ) → a +ℤ (v +ℤ b) ≡ v +ℤ (a +ℤ b)
swap_first a v b = ground (
  arith,
  ℤ-ext (a +ℤ (v +ℤ b)) (v +ℤ (a +ℤ b)),
  +ℤ-parts a (v +ℤ b),
  +ℤ-parts v b,
  +ℤ-parts v (a +ℤ b),
  +ℤ-parts a b,
)

-- The rows before a range and those within it are the rows up to its end.
pub net-split :
    (date_from date_to : ℕ) (xs : List ClientMovement)
    → date_from ≤ date_to
    → net (select (is_before date_from) xs) +ℤ net (select (is_within date_from date_to) xs)
      ≡ net (select (λ r. leb r.date date_to) xs)
unfolding net
net-split date_from date_to [] h = zero-+ℤ (pos 0)
net-split date_from date_to (x ∷ xs) h =
    let ih = net-split date_from date_to xs h in
    elim (Bool-cases (is_before date_from x)) [
      | inl b ↦
          let out : is_within date_from date_to x ≡ false = ground (arith, b) in
          let up : leb x.date date_to ≡ true = ground (arith, b) in
          rw (b, out, up, sym ih) (sym (+ℤ_assoc _ _ _))
      | inr b ↦ elim (Bool-cases (leb x.date date_to)) [
        | inl up ↦
            let within : is_within date_from date_to x ≡ true = ground (arith, b, up) in
            rw (b, within, up, sym ih) (swap_first _ _ _)
        | inr up ↦
            let out : is_within date_from date_to x ≡ false = ground (arith, up) in
            rw (b, out, up) ih
      ]
    ]

-- Before the day after `day`, where no opening is on that day.
pub net-next :
    (day : ℕ) (xs : List ClientMovement)
    → All (λ r. (is_opening r && r.date == day + 1) ≡ false) xs
    → net (select (is_before (day + 1)) xs) ≡ net (select (λ r. leb r.date day) xs)
unfolding net
net-next day [] h = refl
net-next day (x ∷ xs) h =
    let ih = net-next day xs h.1 in
    elim (Bool-cases (leb x.date day)) [
      | inl y ↦ let b : is_before (day + 1) x ≡ true = ground (arith, y) in rw (b, y, ih) refl
      | inr n ↦ let b : is_before (day + 1) x ≡ false = ground (arith, n, h.0) in rw (b, n) ih
    ]
