-- ===== src/Procurement/Fulfilment/Stock.antt =====
-- What the services on purchases, receipts, deliveries and outcomes do to the quantities that rows pass on.
use holansl_backend.Base.{
  ℕ, ◌≤◌, ◌≡◌, subst, some, List, [], ◌∷◌, String, ◌==◌, arith, inl, inr, Option-cases, find,
  Result, ok, >>=-eq-ok,
}
use holansl_backend.Procurement.Fulfilment.{
  Store, purchased, received, reserved, decided, get_row, each_row,
}
use holansl_backend.Procurement.Fulfilment.Resolution.{
  is_returned, is_accepted, is_replace, settles, acted, committed,
}
use holansl_backend.Procurement.Fulfilment.Caps.{capacity}

-- No row passes on more than it has: purchases of an attempt, receipts of a purchase, deliveries of a receipt,
-- outcomes of a delivery; and of what was rejected, no more is replaced or closed, returned, settled
-- by the supplier or resupplied than there was.
pub record IsStocked (s : Store) : Type 0 where
  pub purchases : (k : ℕ) → purchased k s ≤ capacity (λ a. a.id) (λ a. a.quantity) k s.attempts
  pub receipts : (k : ℕ) → received k s ≤ capacity (λ l. l.id) (λ l. l.quantity) k s.purchase_lines
  pub deliveries : (k : ℕ) → reserved k s ≤ capacity (λ l. l.id) (λ l. l.quantity) k s.receipt_lines
  pub outcomes : (k : ℕ) → decided k s ≤ capacity (λ l. l.id) (λ l. l.quantity) k s.delivery_lines
  pub commitments :
      (k : ℕ) → committed k s ≤ capacity (λ l. l.id) (λ l. l.rejected) k s.outcome_lines
  pub returns :
      (k : ℕ)
      → acted is_returned k s.actions ≤ capacity (λ l. l.id) (λ l. l.rejected) k s.outcome_lines
  pub settlements : (k : ℕ) → acted settles k s.actions ≤ acted is_returned k s.actions
  pub resupplies : (k : ℕ) → acted is_replace k s.actions ≤ acted is_accepted k s.actions

pub le_trans : {a b c : ℕ} → a ≤ b → b ≤ c → a ≤ c
le_trans h g = omega (arith, h, g)

pub get_row-eq-ok :
    {A : Type 0} (name : String) (id : A → ℕ) (k : ℕ) (xs : List A) (x : A)
    → get_row name id k xs ≡ ok x
    → find (λ x. id x == k) xs ≡ some x
get_row-eq-ok name id k xs x h = elim (Option-cases (find (λ x. id x == k) xs)) [
  | inl n ↦ ground (arith, n)
  | inr (y, f) ↦ ground (arith, f)
]

-- A loop keeps what each of its steps keeps.
pub each_row-IsStocked :
    {R : Type 0} (step : R → Store → Result Store)
    → ((r : R) (s s' : Store) → IsStocked s → step r s ≡ ok s' → IsStocked s')
    → (rs : List R) (s s' : Store) → IsStocked s
    → each_row step rs s ≡ ok s'
    → IsStocked s'
unfolding each_row
each_row-IsStocked step keeps [] s s' v h =
    let same : s ≡ s' = ground (arith, h) in subst IsStocked same v
each_row-IsStocked step keeps (r ∷ rs) s s' v h =
    let (s₁, first, h₁) = >>=-eq-ok (step r s) _ h in
    each_row-IsStocked step keeps rs s₁ s' (keeps r s s₁ v first) h₁
