-- ===== src/Procurement/Fulfilment.antt =====
-- procurement/services.py from a purchase to the resolution of a rejection, over the rows of
-- procurement/models.py. Quantities are in ten-thousandths. The argument `guard` is what a service checks
-- of the request, its parties and its documents before the rows, and the field `guard` of a row what it checks
-- of the row's offer or request; `document_guard` is what it checks of contacts and documents later on. Tracking events are left out.

pub mod Resolution
pub mod Caps
pub mod Stock
pub mod Rows
pub mod Rejected
pub mod Services
mod Tests
use holansl_backend.Base.{
  ℕ, zero, suc, ◌+◌, Bool, true, false, not, ◌&&◌, ◌||◌, Option, none, some, List, [], ◌∷◌, ◌++◌,
  String, ltb, leb, ◌==◌, if◌then◌else◌, is_some, is_value, is_empty, strip, find, update, Error,
  validation_error, conflict, not_found, Result, ok, err, check, ◌>>=◌, ◌>>◌,
}

pub record FulfilmentAttempt : Type 0 where
  pub id : ℕ
  pub quantity : ℕ
  pub replaces : Option ℕ

pub record SupplierPurchaseLine : Type 0 where
  pub id : ℕ
  pub purchase : ℕ
  pub attempt : ℕ
  pub quantity : ℕ
  pub created_at : ℕ

pub record GoodsReceiptLine : Type 0 where
  pub id : ℕ
  pub receipt : ℕ
  pub purchase_line : ℕ
  pub quantity : ℕ

pub record Delivery : Type 0 where
  pub id : ℕ
  pub waybill : Option ℕ
  pub dispatched_at : Option ℕ

pub record DeliveryLine : Type 0 where
  pub id : ℕ
  pub delivery : ℕ
  pub receipt_line : ℕ
  pub quantity : ℕ

pub record DeliveryOutcomeLine : Type 0 where
  pub id : ℕ
  pub outcome : ℕ
  pub delivery_line : ℕ
  pub accepted : ℕ
  pub rejected : ℕ
  pub reason : String

-- `RejectionAction.Kind`
pub data Kind : Type 0 where
  returned accepted refused replace source refund close : Kind

pub record RejectionAction : Type 0 where
  pub id : ℕ
  pub rejection : ℕ
  pub kind : Kind
  pub quantity : ℕ
  pub reason : String
  pub document : Option ℕ
  pub replacement_attempt : Option ℕ
  pub refund_amount : Option ℕ
  pub currency : String

pub record Store : Type 0 where
  pub attempts : List FulfilmentAttempt
  pub purchase_lines : List SupplierPurchaseLine
  pub receipt_lines : List GoodsReceiptLine
  pub deliveries : List Delivery
  pub delivery_lines : List DeliveryLine
  pub outcome_lines : List DeliveryOutcomeLine
  pub actions : List RejectionAction
  pub next_id : ℕ

-- `total(queryset, field)`, over the rows of `xs` that belong to the parent `k`.
unfoldable pub total : {C : Type 0} → (C → ℕ) → (C → ℕ) → ℕ → List C → ℕ
total parent quantity k [] = 0
total parent quantity k (x ∷ xs) =
    (if parent x == k then quantity x else 0) + total parent quantity k xs

abbrev pub purchased : ℕ → Store → ℕ
purchased k s = total (λ l. l.attempt) (λ l. l.quantity) k s.purchase_lines

abbrev pub received : ℕ → Store → ℕ
received k s = total (λ l. l.purchase_line) (λ l. l.quantity) k s.receipt_lines

abbrev pub reserved : ℕ → Store → ℕ
reserved k s = total (λ l. l.receipt_line) (λ l. l.quantity) k s.delivery_lines

abbrev pub decided : ℕ → Store → ℕ
decided k s =
    total (λ l. l.delivery_line) (λ l. l.accepted) k s.outcome_lines
    + total (λ l. l.delivery_line) (λ l. l.rejected) k s.outcome_lines

abbrev pub get_row : {A : Type 0} → String → (A → ℕ) → ℕ → List A → Result A
get_row name id k xs = elim (find (λ x. id x == k) xs) [
  | none ↦ err (not_found name)
  | some x ↦ ok x
]

-- A loop over rows; a refused row leaves nothing.
unfoldable pub each_row : {R : Type 0} → (R → Store → Result Store) → List R → Store → Result Store
each_row step [] s = ok s
each_row step (r ∷ rs) s = step r s >>= each_row step rs

pub record PurchaseRow : Type 0 where
  pub attempt : ℕ
  pub quantity : ℕ
  pub guard : Result (Unit {0})

unfoldable pub purchase_row : ℕ → ℕ → PurchaseRow → Store → Result Store
purchase_row now purchase row s = do
  attempt ← get_row "FulfilmentAttempt" (λ x. x.id) row.attempt s.attempts
  row.guard
  check (leb (purchased attempt.id s + row.quantity) attempt.quantity)
      (validation_error "" "Purchase exceeds the remaining attempt quantity.")
  check (ltb 0 row.quantity) (conflict "proc_purchase_values_valid")
  ok (record s {
    purchase_lines =
        s.purchase_lines
        ++ record {
          id = s.next_id;
          purchase = purchase;
          attempt = attempt.id;
          quantity = row.quantity;
          created_at = now;
        }
          ∷ [];
    next_id = s.next_id + 1;
  })

-- The key of the row that heads the lines, and the store in which it is taken.
abbrev pub take_id : Store → Store
take_id s = record s { next_id = s.next_id + 1 }

unfoldable pub create_purchase : ℕ → Result (Unit {0}) → List PurchaseRow → Store → Result Store
create_purchase now guard rows s = do guard; each_row (purchase_row now s.next_id) rows (take_id s)

pub record ReceiptRow : Type 0 where
  pub purchase_line : ℕ
  pub quantity : ℕ

unfoldable pub receipt_row : ℕ → ℕ → ℕ → ReceiptRow → Store → Result Store
receipt_row purchase received_at receipt row s = do
  line ← get_row "SupplierPurchaseLine" (λ x. x.id) row.purchase_line s.purchase_lines
  check (line.purchase == purchase)
      (validation_error "" "Receipt line belongs to another purchase.")
  check (leb line.created_at received_at)
      (validation_error "" "Receipt cannot precede the recorded purchase.")
  check (leb (received line.id s + row.quantity) line.quantity)
      (validation_error "" "Receipt exceeds purchased quantity.")
  check (ltb 0 row.quantity) (conflict "proc_received_qty_positive")
  ok (record s {
    receipt_lines =
        s.receipt_lines
        ++ record {
          id = s.next_id;
          receipt = receipt;
          purchase_line = line.id;
          quantity = row.quantity;
        }
          ∷ [];
    next_id = s.next_id + 1;
  })

unfoldable pub create_receipt :
    ℕ → Result (Unit {0}) → ℕ → ℕ → List ReceiptRow → Store → Result Store
create_receipt now guard purchase received_at rows s = do
  guard
  check (leb received_at now) (validation_error "" "An occurrence date cannot be in the future.")
  each_row (receipt_row purchase received_at s.next_id) rows (take_id s)

pub record DeliveryRow : Type 0 where
  pub receipt_line : ℕ
  pub quantity : ℕ
  pub guard : Result (Unit {0})

unfoldable pub delivery_row : ℕ → DeliveryRow → Store → Result Store
delivery_row delivery row s = do
  line ← get_row "GoodsReceiptLine" (λ x. x.id) row.receipt_line s.receipt_lines
  row.guard
  check (leb (reserved line.id s + row.quantity) line.quantity) (
      validation_error ""
        "Delivery exceeds unallocated received quantity (including draft deliveries).")
  check (ltb 0 row.quantity) (conflict "proc_delivery_qty_positive")
  ok (record s {
    delivery_lines =
        s.delivery_lines
        ++ record {
          id = s.next_id;
          delivery = delivery;
          receipt_line = line.id;
          quantity = row.quantity;
        }
          ∷ [];
    next_id = s.next_id + 1;
  })

unfoldable pub create_delivery :
    Result (Unit {0}) → Option ℕ → List DeliveryRow → Store → Result Store
create_delivery guard waybill rows s = do
  guard
  each_row (delivery_row s.next_id) rows (record s {
    deliveries =
        s.deliveries ++ record { id = s.next_id; waybill = waybill; dispatched_at = none } ∷ [];
    next_id = s.next_id + 1;
  })

unfoldable pub dispatch : ℕ → Result (Unit {0}) → Result (Unit {0}) → ℕ → Store → Result Store
dispatch now guard document_guard id s = do
  guard
  delivery ← get_row "Delivery" (λ x. x.id) id s.deliveries
  check (not (is_some delivery.dispatched_at))
      (validation_error "" "Delivery has already been dispatched.")
  check (is_some delivery.waybill)
      (validation_error "" "Generate or attach a waybill before dispatch.")
  document_guard
  ok (record s {
    deliveries = update (λ d. d.id == id) (λ d. record d { dispatched_at = some now }) s.deliveries;
  })

pub record OutcomeRow : Type 0 where
  pub delivery_line : ℕ
  pub accepted : ℕ
  pub rejected : ℕ
  pub reason : String

unfoldable pub outcome_row : ℕ → Option ℕ → ℕ → OutcomeRow → Store → Result Store
outcome_row delivery signed_waybill outcome row s = do
  line ← get_row "DeliveryLine" (λ x. x.id) row.delivery_line s.delivery_lines
  check (line.delivery == delivery)
      (validation_error "" "Outcome line belongs to another delivery.")
  check (ltb 0 (row.accepted + row.rejected))
      (validation_error "" "Record an accepted or rejected quantity.")
  check (row.accepted == 0 || is_some signed_waybill)
      (validation_error "" "Accepted items require a signed waybill.")
  check (row.rejected == 0 || not (is_empty (strip row.reason)))
      (validation_error "" "Rejection reason is mandatory.")
  check (leb (decided line.id s + row.accepted + row.rejected) line.quantity)
      (validation_error "" "Outcome exceeds dispatched quantity.")
  ok (record s {
    outcome_lines =
        s.outcome_lines
        ++ record {
          id = s.next_id;
          outcome = outcome;
          delivery_line = line.id;
          accepted = row.accepted;
          rejected = row.rejected;
          reason = row.reason;
        }
          ∷ [];
    next_id = s.next_id + 1;
  })

unfoldable pub record_outcome :
    ℕ
    → Result (Unit {0})
    → Result (Unit {0})
    → ℕ
    → Option ℕ
    → ℕ
    → List OutcomeRow
    → Store
    → Result Store
record_outcome now guard document_guard delivery_id signed_waybill occurred rows s = do
  guard
  delivery ← get_row "Delivery" (λ x. x.id) delivery_id s.deliveries
  dispatched ← elim delivery.dispatched_at [
    | none ↦ err (validation_error "" "Dispatch the delivery before recording its outcome.")
    | some t ↦ ok t
  ]
  document_guard
  check (leb occurred now) (validation_error "" "An occurrence date cannot be in the future.")
  check (leb dispatched occurred) (validation_error "" "Outcome cannot precede dispatch.")
  each_row (outcome_row delivery_id signed_waybill s.next_id) rows (take_id s)
