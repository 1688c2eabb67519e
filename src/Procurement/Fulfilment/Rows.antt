-- ===== src/Procurement/Fulfilment/Rows.antt =====
-- What one row of a purchase, a receipt, a delivery or an outcome does to the quantities.
use holansl_backend.Base.{
  ℕ, ◌+◌, ◌≤◌, ◌≡◌, refl, subst, not, ◌||◌, Option, List, [], ◌∷◌, ◌++◌, ltb, leb, ◌==◌, ==_refl,
  arith, if◌then◌else◌, is_some, is_empty, strip, check, validation_error, conflict, ok, >>=-eq-ok,
}
use holansl_backend.Procurement.Fulfilment.{
  SupplierPurchaseLine, GoodsReceiptLine, DeliveryLine, DeliveryOutcomeLine, Store, total,
  purchased, received, reserved, decided, get_row, PurchaseRow, purchase_row, ReceiptRow,
  receipt_row, DeliveryRow, delivery_row, OutcomeRow, outcome_row,
}
use holansl_backend.Procurement.Fulfilment.Caps.{
  capacity-snoc, total-snoc, IsWithin-grow, IsWithin-take,
}
use holansl_backend.Procurement.Fulfilment.Stock.{IsStocked, le_trans, get_row-eq-ok}

pub purchase_row-IsStocked :
    (now purchase : ℕ) (row : PurchaseRow) (s s' : Store)
    → IsStocked s
    → purchase_row now purchase row s ≡ ok s'
    → IsStocked s'
unfolding purchase_row
purchase_row-IsStocked now purchase row s s' v h =
    let (attempt, f, h₁) =
      >>=-eq-ok (get_row "FulfilmentAttempt" (λ x. x.id) row.attempt s.attempts) _ h in
    let (_, _, h₂) = >>=-eq-ok row.guard _ h₁ in
    let (_, fits, h₃) =
      >>=-eq-ok
        (check (leb (purchased attempt.id s + row.quantity) attempt.quantity)
          (validation_error "" "Purchase exceeds the remaining attempt quantity."))
        _ h₂ in
    let (_, _, h₄) =
      >>=-eq-ok (check (ltb 0 row.quantity) (conflict "proc_purchase_values_valid")) _ h₃ in
    let line : SupplierPurchaseLine = record {
      id = s.next_id;
      purchase = purchase;
      attempt = attempt.id;
      quantity = row.quantity;
      created_at = now;
    } in
    let made : Store = record s {
      purchase_lines = s.purchase_lines ++ line ∷ [];
      next_id = s.next_id + 1;
    } in
    let same : made ≡ s' = ground (arith, h₄) in
    let found = get_row-eq-ok "FulfilmentAttempt" (λ x. x.id) row.attempt s.attempts attempt f in
    let room : purchased attempt.id s + row.quantity ≤ attempt.quantity = ground (arith, fits) in
    subst IsStocked same (record {
      purchases =
          IsWithin-take (λ a. a.id) (λ a. a.quantity) row.attempt s.attempts attempt found
            (λ l. l.attempt) (λ l. l.quantity) s.purchase_lines line v.purchases refl room;
      receipts = λ k.
          le_trans (v.receipts k)
            (capacity-snoc (λ l. l.id) (λ l. l.quantity) k s.purchase_lines line);
      deliveries = v.deliveries;
      outcomes = v.outcomes;
      commitments = v.commitments;
      returns = v.returns;
      settlements = v.settlements;
      resupplies = v.resupplies;
    })

pub receipt_row-IsStocked :
    (purchase received_at receipt : ℕ) (row : ReceiptRow) (s s' : Store)
    → IsStocked s
    → receipt_row purchase received_at receipt row s ≡ ok s'
    → IsStocked s'
unfolding receipt_row
receipt_row-IsStocked purchase received_at receipt row s s' v h =
    let (parent, f, h₁) =
      >>=-eq-ok (get_row "SupplierPurchaseLine" (λ x. x.id) row.purchase_line s.purchase_lines) _
        h in
    let (_, _, h₂) =
      >>=-eq-ok
        (check (parent.purchase == purchase)
          (validation_error "" "Receipt line belongs to another purchase."))
        _ h₁ in
    let (_, _, h₃) =
      >>=-eq-ok
        (check (leb parent.created_at received_at)
          (validation_error "" "Receipt cannot precede the recorded purchase."))
        _ h₂ in
    let (_, fits, h₄) =
      >>=-eq-ok
        (check (leb (received parent.id s + row.quantity) parent.quantity)
          (validation_error "" "Receipt exceeds purchased quantity."))
        _ h₃ in
    let (_, _, h₅) =
      >>=-eq-ok (check (ltb 0 row.quantity) (conflict "proc_received_qty_positive")) _ h₄ in
    let line : GoodsReceiptLine = record {
      id = s.next_id;
      receipt = receipt;
      purchase_line = parent.id;
      quantity = row.quantity;
    } in
    let made : Store = record s {
      receipt_lines = s.receipt_lines ++ line ∷ [];
      next_id = s.next_id + 1;
    } in
    let same : made ≡ s' = ground (arith, h₅) in
    let found =
      get_row-eq-ok "SupplierPurchaseLine" (λ x. x.id) row.purchase_line s.purchase_lines parent
        f in
    let room : received parent.id s + row.quantity ≤ parent.quantity = ground (arith, fits) in
    subst IsStocked same (record {
      receipts =
          IsWithin-take (λ a. a.id) (λ a. a.quantity) row.purchase_line s.purchase_lines parent
            found (λ l. l.purchase_line) (λ l. l.quantity) s.receipt_lines line v.receipts refl
            room;
      deliveries = λ k.
          le_trans (v.deliveries k)
            (capacity-snoc (λ l. l.id) (λ l. l.quantity) k s.receipt_lines line);
      purchases = v.purchases;
      outcomes = v.outcomes;
      commitments = v.commitments;
      returns = v.returns;
      settlements = v.settlements;
      resupplies = v.resupplies;
    })

pub delivery_row-IsStocked :
    (delivery : ℕ) (row : DeliveryRow) (s s' : Store)
    → IsStocked s
    → delivery_row delivery row s ≡ ok s'
    → IsStocked s'
unfolding delivery_row
delivery_row-IsStocked delivery row s s' v h =
    let (parent, f, h₁) =
      >>=-eq-ok (get_row "GoodsReceiptLine" (λ x. x.id) row.receipt_line s.receipt_lines) _ h in
    let (_, _, h₂) = >>=-eq-ok row.guard _ h₁ in
    let (_, fits, h₃) =
      >>=-eq-ok
        (check (leb (reserved parent.id s + row.quantity) parent.quantity) (
          validation_error ""
            "Delivery exceeds unallocated received quantity (including draft deliveries)."))
        _ h₂ in
    let (_, _, h₄) =
      >>=-eq-ok (check (ltb 0 row.quantity) (conflict "proc_delivery_qty_positive")) _ h₃ in
    let line : DeliveryLine = record {
      id = s.next_id;
      delivery = delivery;
      receipt_line = parent.id;
      quantity = row.quantity;
    } in
    let made : Store = record s {
      delivery_lines = s.delivery_lines ++ line ∷ [];
      next_id = s.next_id + 1;
    } in
    let same : made ≡ s' = ground (arith, h₄) in
    let found =
      get_row-eq-ok "GoodsReceiptLine" (λ x. x.id) row.receipt_line s.receipt_lines parent f in
    let room : reserved parent.id s + row.quantity ≤ parent.quantity = ground (arith, fits) in
    subst IsStocked same (record {
      deliveries =
          IsWithin-take (λ a. a.id) (λ a. a.quantity) row.receipt_line s.receipt_lines parent found
            (λ l. l.receipt_line) (λ l. l.quantity) s.delivery_lines line v.deliveries refl room;
      outcomes = λ k.
          le_trans (v.outcomes k)
            (capacity-snoc (λ l. l.id) (λ l. l.quantity) k s.delivery_lines line);
      purchases = v.purchases;
      receipts = v.receipts;
      commitments = v.commitments;
      returns = v.returns;
      settlements = v.settlements;
      resupplies = v.resupplies;
    })

decided-snoc :
    (k : ℕ) (ls : List DeliveryOutcomeLine) (l : DeliveryOutcomeLine)
    → total (λ l. l.delivery_line) (λ l. l.accepted) k (ls ++ l ∷ [])
        + total (λ l. l.delivery_line) (λ l. l.rejected) k (ls ++ l ∷ [])
      ≡ total (λ l. l.delivery_line) (λ l. l.accepted) k ls
        + total (λ l. l.delivery_line) (λ l. l.rejected) k ls
        + (if l.delivery_line == k then l.accepted + l.rejected else 0)
decided-snoc k ls l =
    let a = total-snoc (λ l. l.delivery_line) (λ l. l.accepted) k ls l in
    let r = total-snoc (λ l. l.delivery_line) (λ l. l.rejected) k ls l in ground arith

pub outcome_row-IsStocked :
    (delivery : ℕ) (signed_waybill : Option ℕ) (outcome : ℕ) (row : OutcomeRow) (s s' : Store)
    → IsStocked s
    → outcome_row delivery signed_waybill outcome row s ≡ ok s'
    → IsStocked s'
unfolding outcome_row
outcome_row-IsStocked delivery signed_waybill outcome row s s' v h =
    let (parent, f, h₁) =
      >>=-eq-ok (get_row "DeliveryLine" (λ x. x.id) row.delivery_line s.delivery_lines) _ h in
    let (_, _, h₂) =
      >>=-eq-ok
        (check (parent.delivery == delivery)
          (validation_error "" "Outcome line belongs to another delivery."))
        _ h₁ in
    let (_, _, h₃) =
      >>=-eq-ok
        (check (ltb 0 (row.accepted + row.rejected))
          (validation_error "" "Record an accepted or rejected quantity."))
        _ h₂ in
    let (_, _, h₄) =
      >>=-eq-ok
        (check (row.accepted == 0 || is_some signed_waybill)
          (validation_error "" "Accepted items require a signed waybill."))
        _ h₃ in
    let (_, _, h₅) =
      >>=-eq-ok
        (check (row.rejected == 0 || not (is_empty (strip row.reason)))
          (validation_error "" "Rejection reason is mandatory."))
        _ h₄ in
    let (_, fits, h₆) =
      >>=-eq-ok
        (check (leb (decided parent.id s + row.accepted + row.rejected) parent.quantity)
          (validation_error "" "Outcome exceeds dispatched quantity."))
        _ h₅ in
    let line : DeliveryOutcomeLine = record {
      id = s.next_id;
      outcome = outcome;
      delivery_line = parent.id;
      accepted = row.accepted;
      rejected = row.rejected;
      reason = row.reason;
    } in
    let made : Store = record s {
      outcome_lines = s.outcome_lines ++ line ∷ [];
      next_id = s.next_id + 1;
    } in
    let same : made ≡ s' = ground (arith, h₆) in
    let found =
      get_row-eq-ok "DeliveryLine" (λ x. x.id) row.delivery_line s.delivery_lines parent f in
    let room : decided parent.id s + row.accepted + row.rejected ≤ parent.quantity =
      ground (arith, fits) in
    subst IsStocked same (record {
      outcomes =
          IsWithin-grow (λ a. a.id) (λ a. a.quantity) row.delivery_line s.delivery_lines parent
            found (λ k. decided k s) (λ k. decided k made) v.outcomes
            (λ k n. rw (decided-snoc k s.outcome_lines line, n) (omega arith))
            (rw (decided-snoc parent.id s.outcome_lines line, ==_refl parent.id)
              (omega (arith, room)));
      commitments = λ k.
          le_trans (v.commitments k)
            (capacity-snoc (λ l. l.id) (λ l. l.rejected) k s.outcome_lines line);
      returns = λ k.
          le_trans (v.returns k)
            (capacity-snoc (λ l. l.id) (λ l. l.rejected) k s.outcome_lines line);
      purchases = v.purchases;
      receipts = v.receipts;
      deliveries = v.deliveries;
      settlements = v.settlements;
      resupplies = v.resupplies;
    })
