-- ===== src/Procurement/Fulfilment/Services.antt =====
-- The services of procurement/services.py on fulfilment, as requests, and sequences of them; a refused request
-- leaves the tables as they were.
use holansl_backend.Base.{
  ℕ, ◌+◌, ◌≡◌, subst, Bool, not, Option, some, none, List, [], ◌∷◌, leb, ◌==◌, is_some, arith, inl,
  inr, check, validation_error, update, Result, ok, err, Result-cases, >>=-eq-ok,
}
use holansl_backend.Procurement.Fulfilment.{
  Delivery, Store, get_row, PurchaseRow, purchase_row, take_id, create_purchase, ReceiptRow,
  receipt_row, create_receipt, DeliveryRow, delivery_row, create_delivery, dispatch, OutcomeRow,
  outcome_row, record_outcome,
}
use holansl_backend.Procurement.Fulfilment.Resolution.{Resolution, resolve_rejection}
use holansl_backend.Procurement.Fulfilment.Stock.{IsStocked, each_row-IsStocked}
use holansl_backend.Procurement.Fulfilment.Rows.{
  purchase_row-IsStocked, receipt_row-IsStocked, delivery_row-IsStocked, outcome_row-IsStocked,
}
use holansl_backend.Procurement.Fulfilment.Rejected.{resolve_rejection-IsStocked}

-- What a service is called with; the results stand for what it checks of requests, parties and documents.
pub data Request : Type 0 where
  buy : ℕ → Result (Unit {0}) → List PurchaseRow → Request
  receive : ℕ → Result (Unit {0}) → ℕ → ℕ → List ReceiptRow → Request
  deliver : Result (Unit {0}) → Option ℕ → List DeliveryRow → Request
  send : ℕ → Result (Unit {0}) → Result (Unit {0}) → ℕ → Request
  conclude :
      ℕ → Result (Unit {0}) → Result (Unit {0}) → ℕ → Option ℕ → ℕ → List OutcomeRow → Request
  resolve : Result (Unit {0}) → Result (Unit {0}) → Bool → ℕ → Resolution → Request

unfoldable pub serve : Request → Store → Result Store
serve (Request.buy now guard rows) s = create_purchase now guard rows s
serve (Request.receive now guard purchase received_at rows) s =
    create_receipt now guard purchase received_at rows s
serve (Request.deliver guard waybill rows) s = create_delivery guard waybill rows s
serve (Request.send now guard document_guard id) s = dispatch now guard document_guard id s
serve (Request.conclude now guard document_guard delivery signed_waybill occurred rows) s =
    record_outcome now guard document_guard delivery signed_waybill occurred rows s
serve (Request.resolve guard document_guard may_resolve id d) s =
    resolve_rejection guard document_guard may_resolve id d s

unfoldable pub serve_all : List Request → Store → Store
serve_all [] s = s
serve_all (q ∷ qs) s = elim (serve q s) [ ok s' ↦ serve_all qs s' | err e ↦ serve_all qs s ]

-- Deliveries and keys pass on no quantities.
deliveries-IsStocked :
    (ds : List Delivery) (n : ℕ) (s : Store)
    → IsStocked s
    → IsStocked (record s { deliveries = ds; next_id = n })
deliveries-IsStocked ds n s v = record {
  purchases = v.purchases;
  receipts = v.receipts;
  deliveries = v.deliveries;
  outcomes = v.outcomes;
  commitments = v.commitments;
  returns = v.returns;
  settlements = v.settlements;
  resupplies = v.resupplies;
}

take_id-IsStocked : (s : Store) → IsStocked s → IsStocked (take_id s)
take_id-IsStocked s v = deliveries-IsStocked s.deliveries (s.next_id + 1) s v

serve-IsStocked : (q : Request) (s s' : Store) → IsStocked s → serve q s ≡ ok s' → IsStocked s'
unfolding serve create_purchase create_receipt create_delivery dispatch record_outcome
serve-IsStocked (Request.buy now guard rows) s s' v h =
    let (_, _, h₁) = >>=-eq-ok guard _ h in
    each_row-IsStocked (purchase_row now s.next_id) (purchase_row-IsStocked now s.next_id) rows
      (take_id s) s' (take_id-IsStocked s v) h₁
serve-IsStocked (Request.receive now guard purchase received_at rows) s s' v h =
    let (_, _, h₁) = >>=-eq-ok guard _ h in
    let (_, _, h₂) =
      >>=-eq-ok
        (check (leb received_at now)
          (validation_error "" "An occurrence date cannot be in the future."))
        _ h₁ in
    each_row-IsStocked (receipt_row purchase received_at s.next_id)
      (receipt_row-IsStocked purchase received_at s.next_id) rows (take_id s) s'
      (take_id-IsStocked s v) h₂
serve-IsStocked (Request.deliver guard waybill rows) s s' v h =
    let (_, _, h₁) = >>=-eq-ok guard _ h in
    each_row-IsStocked (delivery_row s.next_id) (delivery_row-IsStocked s.next_id) rows _ s'
      (deliveries-IsStocked _ _ s v) h₁
serve-IsStocked (Request.send now guard document_guard id) s s' v h =
    let (_, _, h₁) = >>=-eq-ok guard _ h in
    let (delivery, _, h₂) = >>=-eq-ok (get_row "Delivery" (λ x. x.id) id s.deliveries) _ h₁ in
    let (_, _, h₃) =
      >>=-eq-ok
        (check (not (is_some delivery.dispatched_at))
          (validation_error "" "Delivery has already been dispatched."))
        _ h₂ in
    let (_, _, h₄) =
      >>=-eq-ok
        (check (is_some delivery.waybill)
          (validation_error "" "Generate or attach a waybill before dispatch."))
        _ h₃ in
    let (_, _, h₅) = >>=-eq-ok document_guard _ h₄ in
    let sent : List Delivery =
      update (λ d. d.id == id) (λ d. record d { dispatched_at = some now }) s.deliveries in
    let same : record s { deliveries = sent } ≡ s' = ground (arith, h₅) in
    subst IsStocked same (deliveries-IsStocked sent s.next_id s v)
serve-IsStocked (Request.conclude now guard document_guard delivery_id signed_waybill occurred rows)
      s s' v h =
    let (_, _, h₁) = >>=-eq-ok guard _ h in
    let (delivery, _, h₂) =
      >>=-eq-ok (get_row "Delivery" (λ x. x.id) delivery_id s.deliveries) _ h₁ in
    let (t, _, h₃) =
      >>=-eq-ok
        (elim delivery.dispatched_at as (λ _. Result ℕ) [
          | none ↦ err (validation_error "" "Dispatch the delivery before recording its outcome.")
          | some t ↦ ok t
        ])
        _ h₂ in
    let (_, _, h₄) = >>=-eq-ok document_guard _ h₃ in
    let (_, _, h₅) =
      >>=-eq-ok
        (check (leb occurred now)
          (validation_error "" "An occurrence date cannot be in the future."))
        _ h₄ in
    let (_, _, h₆) =
      >>=-eq-ok (check (leb t occurred) (validation_error "" "Outcome cannot precede dispatch.")) _
        h₅ in
    each_row-IsStocked (outcome_row delivery_id signed_waybill s.next_id)
      (outcome_row-IsStocked delivery_id signed_waybill s.next_id) rows (take_id s) s'
      (take_id-IsStocked s v) h₆
serve-IsStocked (Request.resolve guard document_guard may_resolve id d) s s' v h =
    resolve_rejection-IsStocked guard document_guard may_resolve id d s s' v h

-- Whatever is asked of the services on purchases, receipts, deliveries, dispatches, outcomes and rejections,
-- in whatever order, tables in which no row passes on more than it has stay so: purchases of an attempt,
-- receipts of a purchase, deliveries of a receipt, outcomes of a delivery; of a rejection, what is replaced
-- or closed, and what is returned; what the supplier settles of the returned, and resupplies of the accepted.
pub serve_all-IsStocked : (qs : List Request) (s : Store) → IsStocked s → IsStocked (serve_all qs s)
unfolding serve_all
serve_all-IsStocked [] s v = v
serve_all-IsStocked (q ∷ qs) s v = elim (Result-cases (serve q s)) [
  | inr (e, refused) ↦ rw (serve_all, refused) (serve_all-IsStocked qs s v)
  | inl (s', made) ↦
      rw (serve_all, made) (serve_all-IsStocked qs s' (serve-IsStocked q s s' v made))
]
