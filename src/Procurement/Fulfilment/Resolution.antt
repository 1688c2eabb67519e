-- ===== src/Procurement/Fulfilment/Resolution.antt =====
-- `resolve_rejection` of procurement/services.py. `may_resolve` is the answer of
-- `user.has_perm("procurement.resolve_procurementrequest")`.
use holansl_backend.Base.{
  ℕ, ◌+◌, Bool, true, false, not, ◌&&◌, ◌||◌, Option, none, some, List, [], ◌∷◌, ◌++◌, String, ltb,
  leb, ◌==◌, if◌then◌else◌, is_some, is_value, is_empty, permission_denied, validation_error,
  conflict, Result, ok, check, ◌>>=◌, ◌>>◌,
}
use holansl_backend.Procurement.Fulfilment.{
  FulfilmentAttempt, DeliveryOutcomeLine, Kind, RejectionAction, Store, get_row,
}

abbrev pub is_returned : Kind → Bool
is_returned Kind.returned = true
is_returned _ = false

abbrev pub is_accepted : Kind → Bool
is_accepted Kind.accepted = true
is_accepted _ = false

abbrev pub is_refused : Kind → Bool
is_refused Kind.refused = true
is_refused _ = false

abbrev pub is_replace : Kind → Bool
is_replace Kind.replace = true
is_replace _ = false

abbrev pub is_source : Kind → Bool
is_source Kind.source = true
is_source _ = false

abbrev pub is_refund : Kind → Bool
is_refund Kind.refund = true
is_refund _ = false

abbrev pub is_close : Kind → Bool
is_close Kind.close = true
is_close _ = false

-- `total(rejection.replacement_attempts.all())`
unfoldable pub replaced : ℕ → List FulfilmentAttempt → ℕ
replaced k [] = 0
replaced k (a ∷ rest) = (if is_value a.replaces k then a.quantity else 0) + replaced k rest

-- `total(actions.filter(kind__in=...))`
unfoldable pub acted : (Kind → Bool) → ℕ → List RejectionAction → ℕ
acted p k [] = 0
acted p k (a ∷ rest) = (if a.rejection == k && p a.kind then a.quantity else 0) + acted p k rest

abbrev pub committed : ℕ → Store → ℕ
committed k s = replaced k s.attempts + acted is_close k s.actions

pub record Resolution : Type 0 where
  pub kind : Kind
  pub quantity : ℕ
  pub reason : String
  pub document : Option ℕ
  pub refund_amount : Option ℕ
  pub currency : String

abbrev pub settles : Kind → Bool
settles k = is_accepted k || is_refused k

abbrev pub reopens : Kind → Bool
reopens k = is_replace k || is_source k

-- The bounds on the quantity, by the kind of the action.
unfoldable pub check_quantity : DeliveryOutcomeLine → Resolution → Store → Result (Unit {0})
check_quantity rejection d s = do
  check
      (not (reopens d.kind || is_close d.kind)
        || leb (committed rejection.id s + d.quantity) rejection.rejected)
      (validation_error "" "Quantity has already been assigned a replacement or closed.")
  check
      (not (is_returned d.kind)
        || leb (acted is_returned rejection.id s.actions + d.quantity) rejection.rejected)
      (validation_error "" "Returned quantity exceeds rejected quantity.")
  check
      (not (settles d.kind)
        || leb (acted settles rejection.id s.actions + d.quantity)
            (acted is_returned rejection.id s.actions))
      (validation_error "" "Supplier outcome exceeds quantity returned to supplier.")
  check
      (not (is_replace d.kind)
        || leb (acted is_replace rejection.id s.actions + d.quantity)
            (acted is_accepted rejection.id s.actions))
      (validation_error "" "Record the supplier's acceptance of the returned quantity first.")
  check (leb d.quantity rejection.rejected)
      (validation_error "" "Action quantity exceeds rejected quantity.")

abbrev pub check_refund : Resolution → Result (Unit {0})
check_refund d =
    if is_refund d.kind
    then check
        (elim d.refund_amount [ none ↦ false | some n ↦ ltb 0 n ]
          && not (is_empty d.currency)
          && is_some d.document)
        (validation_error ""
          "Refund reports require a positive amount, currency and evidence; ledger verification remains pending.")
    else check (not (is_some d.refund_amount) && is_empty d.currency)
        (validation_error "" "Refund fields apply only to refund reports.")

-- The attempt that replaces the rejected quantity, where the kind asks for one.
unfoldable pub add_replacement : DeliveryOutcomeLine → Resolution → Store → Option ℕ × Store
add_replacement rejection d s =
    if reopens d.kind
    then (
      some s.next_id,
      record s {
        attempts =
            s.attempts
            ++ record { id = s.next_id; quantity = d.quantity; replaces = some rejection.id } ∷ [];
        next_id = s.next_id + 1;
      },
    )
    else (none, s)

abbrev pub add_action : DeliveryOutcomeLine → Resolution → Option ℕ → Store → Store
add_action rejection d replacement s = record s {
  actions =
      s.actions
      ++ record {
        id = s.next_id;
        rejection = rejection.id;
        kind = d.kind;
        quantity = d.quantity;
        reason = d.reason;
        document = d.document;
        replacement_attempt = replacement;
        refund_amount = d.refund_amount;
        currency = d.currency;
      }
        ∷ [];
  next_id = s.next_id + 1;
}

unfoldable pub resolve_rejection :
    Result (Unit {0}) → Result (Unit {0}) → Bool → ℕ → Resolution → Store → Result Store
unfolding check_quantity add_replacement
resolve_rejection guard document_guard may_resolve id d s = do
  rejection ← get_row "DeliveryOutcomeLine" (λ x. x.id) id s.outcome_lines
  guard
  check may_resolve (permission_denied "Rejection resolution permission is required.")
  check (ltb 0 rejection.rejected) (validation_error "" "This outcome has no rejected quantity.")
  document_guard
  check_quantity rejection d s
  check_refund d
  check (ltb 0 d.quantity && not (is_empty d.reason)) (conflict "proc_resolution_valid")
  let made : Option ℕ × Store = add_replacement rejection d s
  ok (add_action rejection d made.0 made.1)
