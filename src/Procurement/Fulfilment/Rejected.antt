-- ===== src/Procurement/Fulfilment/Rejected.antt =====
-- What `resolve_rejection` of procurement/services.py does to the quantities.
use holansl_backend.Base.{
  ℕ, ◌+◌, ◌≤◌, ◌≡◌, refl, subst, ◌∙◌, Bool, true, false, not, ◌&&◌, ◌||◌, some, List, [], ◌∷◌, ◌++◌,
  String, ltb, leb, ◌==◌, ==_iff, ==_refl, arith, inl, inr, if◌then◌else◌, Bool-cases, is_empty,
  is_value, find, check, permission_denied, validation_error, conflict, Result, ok, >>=-eq-ok,
}
use holansl_backend.Procurement.Fulfilment.{
  FulfilmentAttempt, DeliveryOutcomeLine, Kind, RejectionAction, Store, get_row,
}
use holansl_backend.Procurement.Fulfilment.Resolution.{
  is_returned, is_accepted, is_replace, is_close, settles, reopens, replaced, acted, committed,
  Resolution, check_quantity, check_refund, add_replacement, add_action, resolve_rejection,
}
use holansl_backend.Procurement.Fulfilment.Caps.{
  capacity, capacity-snoc, IsWithin-grow, IsWithin-here,
}
use holansl_backend.Procurement.Fulfilment.Stock.{IsStocked, get_row-eq-ok, le_trans}

acted-snoc :
    (p : Kind → Bool) (k : ℕ) (xs : List RejectionAction) (a : RejectionAction)
    → acted p k (xs ++ a ∷ [])
      ≡ acted p k xs + (if a.rejection == k && p a.kind then a.quantity else 0)
unfolding acted
acted-snoc p k [] a = ground arith
acted-snoc p k (x ∷ xs) a = let ih = acted-snoc p k xs a in ground arith

replaced-snoc :
    (k : ℕ) (xs : List FulfilmentAttempt) (a : FulfilmentAttempt)
    → replaced k (xs ++ a ∷ []) ≡ replaced k xs + (if is_value a.replaces k then a.quantity else 0)
unfolding replaced
replaced-snoc k [] a = ground arith
replaced-snoc k (x ∷ xs) a = let ih = replaced-snoc k xs a in ground arith

-- The bounds that a checked quantity is within.
record IsChecked (r : DeliveryOutcomeLine) (d : Resolution) (s : Store) : Type 0 where
  commits : reopens d.kind || is_close d.kind ≡ true → committed r.id s + d.quantity ≤ r.rejected
  returns : is_returned d.kind ≡ true → acted is_returned r.id s.actions + d.quantity ≤ r.rejected
  settled :
      settles d.kind ≡ true
      → acted settles r.id s.actions + d.quantity ≤ acted is_returned r.id s.actions
  resupplied :
      is_replace d.kind ≡ true
      → acted is_replace r.id s.actions + d.quantity ≤ acted is_accepted r.id s.actions

check_when :
    (b : Bool) (m n : ℕ) (text : String) {u : Unit {0}}
    → check (not b || leb m n) (validation_error "" text) ≡ ok u
    → b ≡ true
    → m ≤ n
check_when b m n text h y = ground (arith, y)

check_quantity-IsChecked :
    (r : DeliveryOutcomeLine) (d : Resolution) (s : Store) {u : Unit {0}}
    → check_quantity r d s ≡ ok u
    → IsChecked r d s
unfolding check_quantity
check_quantity-IsChecked r d s h =
    let (_, a, h₁) =
      >>=-eq-ok
        (check
          (not (reopens d.kind || is_close d.kind)
            || leb (committed r.id s + d.quantity) r.rejected)
          (validation_error "" "Quantity has already been assigned a replacement or closed."))
        _ h in
    let (_, b, h₂) =
      >>=-eq-ok
        (check
          (not (is_returned d.kind)
            || leb (acted is_returned r.id s.actions + d.quantity) r.rejected)
          (validation_error "" "Returned quantity exceeds rejected quantity."))
        _ h₁ in
    let (_, c, h₃) =
      >>=-eq-ok
        (check
          (not (settles d.kind)
            || leb (acted settles r.id s.actions + d.quantity) (acted is_returned r.id s.actions))
          (validation_error "" "Supplier outcome exceeds quantity returned to supplier."))
        _ h₂ in
    let (_, e, h₄) =
      >>=-eq-ok
        (check
          (not (is_replace d.kind)
            || leb (acted is_replace r.id s.actions + d.quantity)
                (acted is_accepted r.id s.actions))
          (validation_error "" "Record the supplier's acceptance of the returned quantity first."))
        _ h₃ in
    record {
      commits =
          check_when (reopens d.kind || is_close d.kind) _ _
            "Quantity has already been assigned a replacement or closed." a;
      returns =
          check_when (is_returned d.kind) _ _ "Returned quantity exceeds rejected quantity." b;
      settled =
          check_when (settles d.kind) _ _ "Supplier outcome exceeds quantity returned to supplier."
            c;
      resupplied =
          check_when (is_replace d.kind) _ _
            "Record the supplier's acceptance of the returned quantity first." e;
    }

-- The store after an action, with the attempt that it may bring.
abbrev resolved : DeliveryOutcomeLine → Resolution → Store → Store
resolved r d s = add_action r d (add_replacement r d s).0 (add_replacement r d s).1

acted-resolved :
    (p : Kind → Bool) (k : ℕ) (r : DeliveryOutcomeLine) (d : Resolution) (s : Store)
    → acted p k (resolved r d s).actions
      ≡ acted p k s.actions + (if r.id == k && p d.kind then d.quantity else 0)
unfolding add_replacement
acted-resolved p k r d s = elim (Bool-cases (reopens d.kind)) [
  | inl y ↦ rw y (acted-snoc p k s.actions _)
  | inr n ↦ rw n (acted-snoc p k s.actions _)
]

replaced-resolved :
    (k : ℕ) (r : DeliveryOutcomeLine) (d : Resolution) (s : Store)
    → replaced k (resolved r d s).attempts
      ≡ replaced k s.attempts + (if r.id == k && reopens d.kind then d.quantity else 0)
unfolding add_replacement
replaced-resolved k r d s = elim (Bool-cases (reopens d.kind)) [
  | inl y ↦ rw y (replaced-snoc k s.attempts _ ∙ ground arith)
  | inr n ↦ rw n (ground arith)
]

resolved-attempts :
    (k : ℕ) (r : DeliveryOutcomeLine) (d : Resolution) (s : Store)
    → capacity (λ a. a.id) (λ a. a.quantity) k s.attempts
      ≤ capacity (λ a. a.id) (λ a. a.quantity) k (resolved r d s).attempts
unfolding add_replacement
resolved-attempts k r d s = elim (Bool-cases (reopens d.kind)) [
  | inl y ↦ rw y (capacity-snoc (λ a. a.id) (λ a. a.quantity) k s.attempts _)
  | inr n ↦ rw n (omega arith)
]

-- Nothing but the attempts, the actions and the next key changes.
resolved-keeps :
    (r : DeliveryOutcomeLine) (d : Resolution) (s : Store)
    → record s {
      attempts = (resolved r d s).attempts;
      actions = (resolved r d s).actions;
      next_id = (resolved r d s).next_id;
    }
      ≡ resolved r d s
unfolding add_replacement
resolved-keeps r d s = elim (Bool-cases (reopens d.kind)) [ inl y ↦ rw y refl | inr n ↦ rw n refl ]

not_both : (k : Kind) → (reopens k && is_close k) ≡ false
not_both Kind.returned = refl
not_both Kind.accepted = refl
not_both Kind.refused = refl
not_both Kind.replace = refl
not_both Kind.source = refl
not_both Kind.refund = refl
not_both Kind.close = refl

-- Adding `q` under a test, where there is room for it whenever the test holds.
add_one : (b : Bool) (m q n : ℕ) → m ≤ n → (b ≡ true → m + q ≤ n) → m + (if b then q else 0) ≤ n
add_one true m q n h room = room refl
add_one false m q n h room = omega (arith, h)

add_either :
    (a b : Bool) (m m' q n : ℕ)
    → (a && b) ≡ false
    → m + m' ≤ n
    → (a || b ≡ true → m + m' + q ≤ n)
    → m + (if a then q else 0) + (m' + (if b then q else 0)) ≤ n
add_either true true m m' q n e h room = cc
add_either true false m m' q n e h room = let r = room refl in omega (arith, r)
add_either false true m m' q n e h room = let r = room refl in omega (arith, r)
add_either false false m m' q n e h room = omega (arith, h)

add_below :
    (here a b : Bool) (m n q : ℕ)
    → m ≤ n
    → (here ≡ true → a ≡ true → m + q ≤ n)
    → m + (if here && a then q else 0) ≤ n + (if here && b then q else 0)
add_below true true b m n q h room = let r = room refl refl in omega (arith, r)
add_below true false b m n q h room = omega (arith, h)
add_below false a b m n q h room = omega (arith, h)

module _ (r : DeliveryOutcomeLine) (d : Resolution) (s : Store) (v : IsStocked s)
    (c : IsChecked r d s) (id : ℕ) (found : find (λ x. x.id == id) s.outcome_lines ≡ some r) where
  commitments-kept :
      (k : ℕ)
      → committed k (resolved r d s) ≤ capacity (λ l. l.id) (λ l. l.rejected) k s.outcome_lines
  commitments-kept =
      IsWithin-grow (λ l. l.id) (λ l. l.rejected) id s.outcome_lines r found (λ k. committed k s)
        (λ k. committed k (resolved r d s)) v.commitments
        (λ k n. rw (replaced-resolved k r d s, acted-resolved is_close k r d s, n) (omega arith))
        (rw (replaced-resolved r.id r d s, acted-resolved is_close r.id r d s, ==_refl r.id)
          (add_either (reopens d.kind) (is_close d.kind) _ _ d.quantity r.rejected (not_both d.kind)
            (IsWithin-here (λ l. l.id) (λ l. l.rejected) id s.outcome_lines r found
              (λ k. committed k s) v.commitments)
            c.commits))

  returns-kept :
      (k : ℕ)
      → acted is_returned k (resolved r d s).actions
        ≤ capacity (λ l. l.id) (λ l. l.rejected) k s.outcome_lines
  returns-kept =
      IsWithin-grow (λ l. l.id) (λ l. l.rejected) id s.outcome_lines r found
        (λ k. acted is_returned k s.actions) (λ k. acted is_returned k (resolved r d s).actions)
        v.returns (λ k n. rw (acted-resolved is_returned k r d s, n) (omega arith))
        (rw (acted-resolved is_returned r.id r d s, ==_refl r.id)
          (add_one (is_returned d.kind) _ d.quantity r.rejected
            (IsWithin-here (λ l. l.id) (λ l. l.rejected) id s.outcome_lines r found
              (λ k. acted is_returned k s.actions) v.returns)
            c.returns))

  settlements-kept :
      (k : ℕ)
      → acted settles k (resolved r d s).actions ≤ acted is_returned k (resolved r d s).actions
  settlements-kept k =
      rw (acted-resolved settles k r d s, acted-resolved is_returned k r d s)
        (add_below (r.id == k) (settles d.kind) (is_returned d.kind) _ _ d.quantity
          (v.settlements k)
          (λ here y.
            subst (λ k. acted settles k s.actions + d.quantity ≤ acted is_returned k s.actions)
              ((==_iff r.id k).0 here) (c.settled y)))

  resupplies-kept :
      (k : ℕ)
      → acted is_replace k (resolved r d s).actions ≤ acted is_accepted k (resolved r d s).actions
  resupplies-kept k =
      rw (acted-resolved is_replace k r d s, acted-resolved is_accepted k r d s)
        (add_below (r.id == k) (is_replace d.kind) (is_accepted d.kind) _ _ d.quantity
          (v.resupplies k)
          (λ here y.
            subst (λ k. acted is_replace k s.actions + d.quantity ≤ acted is_accepted k s.actions)
              ((==_iff r.id k).0 here) (c.resupplied y)))

  resolved-IsStocked : IsStocked (resolved r d s)
  resolved-IsStocked = subst IsStocked (resolved-keeps r d s) (record {
    purchases = λ k. le_trans (v.purchases k) (resolved-attempts k r d s);
    receipts = v.receipts;
    deliveries = v.deliveries;
    outcomes = v.outcomes;
    commitments = commitments-kept;
    returns = returns-kept;
    settlements = settlements-kept;
    resupplies = resupplies-kept;
  })

pub resolve_rejection-IsStocked :
    (guard document_guard : Result (Unit {0})) (may_resolve : Bool) (id : ℕ) (d : Resolution)
    (s s' : Store)
    → IsStocked s
    → resolve_rejection guard document_guard may_resolve id d s ≡ ok s'
    → IsStocked s'
unfolding resolve_rejection
resolve_rejection-IsStocked guard document_guard may_resolve id d s s' v h =
    let (r, f, h₁) = >>=-eq-ok (get_row "DeliveryOutcomeLine" (λ x. x.id) id s.outcome_lines) _ h in
    let (_, _, h₂) = >>=-eq-ok guard _ h₁ in
    let (_, _, h₃) =
      >>=-eq-ok
        (check may_resolve (permission_denied "Rejection resolution permission is required.")) _
        h₂ in
    let (_, _, h₄) =
      >>=-eq-ok
        (check (ltb 0 r.rejected) (validation_error "" "This outcome has no rejected quantity.")) _
        h₃ in
    let (_, _, h₅) = >>=-eq-ok document_guard _ h₄ in
    let (_, checked, h₆) = >>=-eq-ok (check_quantity r d s) _ h₅ in
    let (_, _, h₇) = >>=-eq-ok (check_refund d) _ h₆ in
    let (_, _, h₈) =
      >>=-eq-ok
        (check (ltb 0 d.quantity && not (is_empty d.reason)) (conflict "proc_resolution_valid")) _
        h₇ in
    let same : resolved r d s ≡ s' = ground (arith, h₈) in
    let found = get_row-eq-ok "DeliveryOutcomeLine" (λ x. x.id) id s.outcome_lines r f in
    subst IsStocked same
      (resolved-IsStocked r d s v (check_quantity-IsChecked r d s checked) id found)
