-- ===== src/Procurement/Fulfilment/Tests.antt =====
-- Ten pieces are bought, received and delivered; three are rejected, returned and resupplied.
use holansl_backend.Base.{ℕ, ◌≡◌, refl, true, Option, none, some, List, [], ◌∷◌, ok, arith, strip}
use holansl_backend.Procurement.Fulfilment.{
  Kind, RejectionAction, Store, total, each_row, purchase_row, create_purchase, receipt_row,
  create_receipt, delivery_row, create_delivery, dispatch, outcome_row, record_outcome,
}
use holansl_backend.Procurement.Fulfilment.Resolution.{
  Resolution, replaced, acted, resolve_rejection,
}
use holansl_backend.Procurement.Fulfilment.Stock.{IsStocked}
use holansl_backend.Procurement.Fulfilment.Services.{Request, serve, serve_all, serve_all-IsStocked}

abbrev ordered : Store
ordered = record {
  attempts = record { id = 1; quantity = 10; replaces = none } ∷ [];
  purchase_lines = [];
  receipt_lines = [];
  deliveries = [];
  delivery_lines = [];
  outcome_lines = [];
  actions = [];
  next_id = 2;
}

abbrev action : Kind → ℕ → Resolution
action kind quantity = record {
  kind = kind;
  quantity = quantity;
  reason = "damaged";
  document = none;
  refund_amount = none;
  currency = "";
}

abbrev resolve : Resolution → Request
resolve d = Request.resolve (ok tt) (ok tt) true 9 d

-- The second delivery is more than what is left of the receipt, and the last resupply more than was accepted.
abbrev requests : List Request
requests =
    Request.buy 5 (ok tt) (record { attempt = 1; quantity = 10; guard = ok tt } ∷ [])
    ∷ Request.receive 6 (ok tt) 2 6 (record { purchase_line = 3; quantity = 10 } ∷ [])
    ∷ Request.deliver (ok tt) (some 1)
        (record { receipt_line = 5; quantity = 8; guard = ok tt } ∷ [])
    ∷ Request.deliver (ok tt) (some 1)
        (record { receipt_line = 5; quantity = 3; guard = ok tt } ∷ [])
    ∷ Request.send 7 (ok tt) (ok tt) 6
    ∷ Request.conclude 8 (ok tt) (ok tt) 6 (some 2) 8
        (record { delivery_line = 7; accepted = 5; rejected = 3; reason = "damaged" } ∷ [])
    ∷ resolve (action Kind.returned 3)
    ∷ resolve (action Kind.accepted 2)
    ∷ resolve (action Kind.replace 2)
    ∷ resolve (action Kind.replace 1)
    ∷ []

abbrev after : Store
after = record {
  attempts =
      record { id = 1; quantity = 10; replaces = none }
      ∷ record { id = 12; quantity = 2; replaces = some 9 }
      ∷ [];
  purchase_lines = record { id = 3; purchase = 2; attempt = 1; quantity = 10; created_at = 5 } ∷ [];
  receipt_lines = record { id = 5; receipt = 4; purchase_line = 3; quantity = 10 } ∷ [];
  deliveries = record { id = 6; waybill = some 1; dispatched_at = some 7 } ∷ [];
  delivery_lines = record { id = 7; delivery = 6; receipt_line = 5; quantity = 8 } ∷ [];
  outcome_lines =
      record {
        id = 9;
        outcome = 8;
        delivery_line = 7;
        accepted = 5;
        rejected = 3;
        reason = "damaged";
      }
      ∷ [];
  actions =
      row 10 Kind.returned 3 none
      ∷ row 11 Kind.accepted 2 none
      ∷ row 13 Kind.replace 2 (some 12)
      ∷ [];
  next_id = 14;
}
  where
    row : ℕ → Kind → ℕ → Option ℕ → RejectionAction
    row id kind quantity attempt = record {
      id = id;
      rejection = 9;
      kind = kind;
      quantity = quantity;
      reason = "damaged";
      document = none;
      replacement_attempt = attempt;
      refund_amount = none;
      currency = "";
    }

serves : serve_all requests ordered ≡ after
unfolding serve_all serve create_purchase each_row purchase_row total create_receipt receipt_row
    create_delivery delivery_row dispatch record_outcome outcome_row strip resolve_rejection acted
    replaced
serves = refl

ordered-IsStocked : IsStocked ordered
unfolding total replaced acted
ordered-IsStocked = record {
  purchases = λ k. omega arith;
  receipts = λ k. omega arith;
  deliveries = λ k. omega arith;
  outcomes = λ k. omega arith;
  commitments = λ k. omega arith;
  returns = λ k. omega arith;
  settlements = λ k. omega arith;
  resupplies = λ k. omega arith;
}

serve_all-IsStocked_example : IsStocked (serve_all requests ordered)
serve_all-IsStocked_example = serve_all-IsStocked requests ordered ordered-IsStocked
