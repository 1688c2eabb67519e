-- ===== src/Ledger/Reversal/Tests.antt =====
-- The posted receipt, reversed.
use holansl_backend.Base.{◌+◌, ◌≡◌, refl, none, some, [], ◌∷◌, map, ok}
use holansl_backend.Ledger.Data.{JournalEntry, Books}
use holansl_backend.Ledger.Money.{amount}
use holansl_backend.Ledger.Posting.{journal}
use holansl_backend.Ledger.Samples.{
  books, clock, receipt, rows, line, entry, original, after_posting,
}
use holansl_backend.Ledger.Reversal.{reversal_journal}
use holansl_backend.Ledger.Reversal.Netting.{swap, debits_of, credits_of, journal-reversal_journal}

abbrev undone : JournalEntry
undone = entry 103 "REVERSE" (some 102) (line 100 0 1234600 ∷ line 101 1234600 0 ∷ [])

abbrev after_reversal : Books
after_reversal = record after_posting { entries = original ∷ undone ∷ []; next_id = 104 }

posts : journal clock receipt "POST" rows none none books ≡ ok (original, after_posting)
unfolding journal amount
posts = refl

reverses : reversal_journal clock receipt original 40 after_posting ≡ ok (undone, after_reversal)
unfolding reversal_journal journal amount
reverses = refl

journal-reversal_journal_example :
    (undone.lines ≡ map swap original.lines)
    × (undone.reversal_of ≡ some 102)
    × (debits_of 100 original.lines + debits_of 100 undone.lines
        ≡ credits_of 100 original.lines + credits_of 100 undone.lines)
journal-reversal_journal_example =
    journal-reversal_journal clock clock receipt "POST" rows none none books original after_posting
      40 after_posting undone after_reversal 100 posts refl reverses
