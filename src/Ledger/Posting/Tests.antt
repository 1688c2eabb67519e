-- ===== src/Ledger/Posting/Tests.antt =====
-- A receipt that is posted, and what the engine refuses.
use holansl_backend.Base.{◌≡◌, refl, ◌++◌, none, [], ◌∷◌, conflict, ok, err}
use holansl_backend.Ledger.Money.{amount}
use holansl_backend.Ledger.Posting.{journal}
use holansl_backend.Ledger.Posting.Soundness.{
  IsSound, empty, journal-IsSound, all_debits, all_credits, Request, post_all,
  post_all-trial_balance,
}
use holansl_backend.Ledger.Samples.{books, clock, receipt, rows, original, after_posting}

posts : journal clock receipt "POST" rows none none books ≡ ok (original, after_posting)
unfolding journal amount
posts = refl

-- The same event again, and one row without the other.
not_twice :
    journal clock receipt "POST" rows none none after_posting
    ≡ err (conflict "This source event was already posted.")
unfolding journal
not_twice = refl

books-IsSound : IsSound books
books-IsSound = record { balanced = tt; once = empty }

journal-IsSound_example :
    (after_posting.entries ≡ books.entries ++ original ∷ []) × IsSound after_posting
journal-IsSound_example =
    journal-IsSound clock receipt "POST" rows none none books original after_posting books-IsSound
      posts

abbrev request : Request
request = record {
  clock = clock;
  source = receipt;
  event = "POST";
  rows = rows;
  day = none;
  reversal_of = none;
}

posted_once : (post_all (request ∷ request ∷ []) books).entries ≡ original ∷ []
unfolding post_all journal amount
posted_once = refl

post_all-trial_balance_example :
    all_debits (post_all (request ∷ request ∷ []) books).entries
    ≡ all_credits (post_all (request ∷ request ∷ []) books).entries
post_all-trial_balance_example = post_all-trial_balance (request ∷ request ∷ []) books refl
