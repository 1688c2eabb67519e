-- ===== src/Notifications/Delivery/Dispatching.antt =====
-- A whole attempt: `dispatch_delivery` of notifications/services/delivery.py, from claim to mark.
use holansl_backend.Base.{
  ℕ, ◌+◌, ◌≡◌, refl, Bool, true, false, Option, none, some, arith, inl, inr, Option-cases, ◌⊎◌, ◌∙◌,
  ap,
}
use holansl_backend.Notifications.Data.{
  DeliveryStatus, Delivery, Store, Settings, Outcome, success, permanent_error, temporary_error,
  configuration_error, unexpected_error, is_sent,
}
use holansl_backend.Notifications.Delivery.{
  find_delivery, claim_delivery, succeed, mark_success, mark_failure, Attempt, finish,
  dispatch_delivery, provider_send, unexpected_failure, bare_failure,
}
use holansl_backend.Notifications.Delivery.Claiming.{find-id, find-update, claim_delivery_lem}
use holansl_backend.Notifications.Delivery.Marking.{mark_failure_lem}

-- A row after an attempt that ended at `now`: sent out, or not.
abbrev pub Ended : ℕ → Bool → Delivery → Type 0
Ended now true e = (is_sent e.status ≡ true) × (e.sent_at ≡ some now) × (e.failed_at ≡ none)
Ended now false e = (e.status ≡ DeliveryStatus.retrying) ⊎ (e.status ≡ DeliveryStatus.failed)

-- Marking a row that is there never raises; it gives up the lock and keeps the attempt count.
abbrev pub Finished : ℕ → ℕ → Delivery → Option (Bool × Store) → Type 0
Finished now id d r =
    (done : Bool) × (s' : Store) × (e : Delivery) × (r ≡ some (done, s'))
    × (find_delivery id s' ≡ some e)
    × (e.locked_at ≡ none)
    × (e.attempt_count ≡ d.attempt_count)
    × Ended now done e

finish_failure :
    (cfg : Settings) (now id : ℕ) (f : _) (permanent : Bool) (s : Store) (d : Delivery)
    → find_delivery id s ≡ some d
    → Finished now id d
        (elim (mark_failure cfg now id f permanent s) [ none ↦ none | some s' ↦ some (false, s') ])
finish_failure cfg now id f permanent s d h =
    let (s', e, marked, found, free, kept, how) = mark_failure_lem cfg now id f permanent s h in
    (false, s', e, rw marked, found, free, kept, ground arith)

finish_lem :
    (cfg : Settings) (now id : ℕ) (o : Outcome) (s : Store) (d : Delivery)
    → find_delivery id s ≡ some d
    → Finished now id d (finish cfg now id o s)
unfolding finish
finish_lem cfg now id (success result) s d h =
    unfold mark_success succeed in
    (
      true,
      mark_success now id result s,
      succeed now result d,
      refl,
      find-update id (succeed now result) s.deliveries h (find-id id s.deliveries d h),
      refl,
      refl,
      ground arith,
    )
finish_lem cfg now id (permanent_error e) s d h = finish_failure cfg now id e true s d h
finish_lem cfg now id (configuration_error m) s d h =
    finish_failure cfg now id (bare_failure m) true s d h
finish_lem cfg now id (temporary_error e) s d h = finish_failure cfg now id e false s d h
finish_lem cfg now id (unexpected_error m) s d h =
    finish_failure cfg now id (unexpected_failure m) false s d h

-- How a call of `dispatch_delivery` ends: with no claim, or with a claimed row that was marked.
abbrev pub Dispatched : Settings → Attempt → ℕ → Store → Type 0
Dispatched cfg env id s =
    ((claim_delivery cfg env.claimed_at id s).0 ≡ none)
      × (dispatch_delivery cfg env id s ≡ some (false, (claim_delivery cfg env.claimed_at id s).1))
    ⊎ ((d : Delivery) × (done : Bool) × (s' : Store) × (e : Delivery) × (find_delivery id s
          ≡ some d)
        × (dispatch_delivery cfg env id s ≡ some (done, s'))
        × (find_delivery id s' ≡ some e)
        × (e.locked_at ≡ none)
        × (e.attempt_count ≡ d.attempt_count + 1)
        × Ended env.marked_at done e)

-- `dispatch_delivery` always returns. Where no claim was made it reports no success and leaves
-- what the claim left; where a row was claimed, that row has counted one attempt more, is no longer
-- locked, and is SENT, DELIVERED or READ at the marking time if success is reported, RETRYING or
-- FAILED otherwise.
pub dispatch_delivery_lem :
    (cfg : Settings) (env : Attempt) (id : ℕ) (s : Store) → Dispatched cfg env id s
unfolding dispatch_delivery
dispatch_delivery_lem cfg env id s =
    elim (Option-cases (claim_delivery cfg env.claimed_at id s).0) [
      | inl e ↦ inl (e, rw (e, dispatch_delivery))
      | inr (c, e) ↦
          let (d, found, _, _, _, _, counted, _, _, stored) =
            claim_delivery_lem cfg env.claimed_at id s e in
          let same = find-id id (claim_delivery cfg env.claimed_at id s).1.deliveries c stored in
          let (done, s', r, ends, kept, free, count, how) =
            finish_lem cfg env.marked_at id (provider_send env.send c)
              (claim_delivery cfg env.claimed_at id s).1 c stored in
          inr (
            d,
            done,
            s',
            r,
            found,
            rw (e, dispatch_delivery)
                (ap
                    (λ k.
                      finish cfg env.marked_at k (provider_send env.send c)
                        (claim_delivery cfg env.claimed_at id s).1)
                    same
                  ∙ ends),
            kept,
            free,
            count ∙ counted,
            how,
          )
    ]
