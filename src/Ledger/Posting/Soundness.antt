-- ===== src/Ledger/Posting/Soundness.antt =====
-- The books that `journal` of ledger/services/posting.py keeps.
use holansl_backend.Base.{
  ℕ, ◌+◌, ◌≡◌, refl, sym, ap, subst, ◌∙◌, false, Option, List, [], ◌∷◌, ◌++◌, String, arith, All,
  All-append, ok, err, Result-cases, inl, inr,
}
use holansl_backend.Ledger.Data.{JournalEntry, FinancialRecord, Books, debits, credits}
use holansl_backend.Ledger.Posting.{Row, Clock, is_posted, journal}
use holansl_backend.Ledger.Posting.Balanced.{IsBalanced, journal-Posted, prepare-lem}

-- Entries one after the other, none with the source and event of an earlier one.
pub data IsOnceOnly : List JournalEntry → Type 0 where
  empty : IsOnceOnly []
  post :
      {es : List JournalEntry} (e : JournalEntry)
      → IsOnceOnly es
      → is_posted e.source e.event es ≡ false
      → IsOnceOnly (es ++ e ∷ [])

pub record IsSound (s : Books) : Type 0 where
  pub balanced : All IsBalanced s.entries
  pub once : IsOnceOnly s.entries

-- The sides of all entries together.
abbrev pub all_debits : List JournalEntry → ℕ
all_debits [] = 0
all_debits (e ∷ es) = debits e.lines + all_debits es

abbrev pub all_credits : List JournalEntry → ℕ
all_credits [] = 0
all_credits (e ∷ es) = credits e.lines + all_credits es

module _ (clock : Clock) (r : FinancialRecord) (event : String) (rows : List Row) (day : Option ℕ)
    (reversal_of : Option ℕ) (s : Books) (e : JournalEntry) (s' : Books) where
  pub journal-entries :
      journal clock r event rows day reversal_of s ≡ ok (e, s') → s'.entries ≡ s.entries ++ e ∷ []
  journal-entries h =
      let p = journal-Posted clock r event rows day reversal_of s e s' h in
      let (kept, _) = prepare-lem p.currency rows s p.books e.lines p.prepared in
      p.entries ∙ ap (λ es. es ++ e ∷ []) kept.0

  pub journal-IsBalanced : journal clock r event rows day reversal_of s ≡ ok (e, s') → IsBalanced e
  journal-IsBalanced h =
      let p = journal-Posted clock r event rows day reversal_of s e s' h in
      let (_, good) = prepare-lem p.currency rows s p.books e.lines p.prepared in
      record { two = p.two; equal = p.equal; one_side = good }

  -- A posting adds one entry to sound books and leaves sound books: every entry has at least two lines,
  -- each with one positive side, and equal sides in sum, and no source and event are posted twice.
  pub journal-IsSound :
      IsSound s
      → journal clock r event rows day reversal_of s ≡ ok (e, s')
      → (s'.entries ≡ s.entries ++ e ∷ []) × IsSound s'
  journal-IsSound v h =
      let p = journal-Posted clock r event rows day reversal_of s e s' h in
      let added = journal-entries h in
      let new : is_posted e.source e.event s.entries ≡ false =
        subst (λ x. is_posted x e.event s.entries ≡ false) (sym p.source)
          (subst (λ x. is_posted r.id x s.entries ≡ false) (sym p.event_kept) p.fresh) in
      (
        added,
        record {
          balanced =
              subst (All IsBalanced) (sym added)
                (All-append IsBalanced s.entries (e ∷ []) v.balanced (journal-IsBalanced h, tt));
          once = subst IsOnceOnly (sym added) (post e v.once new);
        },
      )

sides_equal : (es : List JournalEntry) → All IsBalanced es → all_debits es ≡ all_credits es
sides_equal [] h = refl
sides_equal (e ∷ es) h = omega (arith, sides_equal es h.1, h.0.equal)

-- A posting that a caller asks for, and a sequence of them: a refused one leaves the books.
pub record Request : Type 0 where
  pub clock : Clock
  pub source : FinancialRecord
  pub event : String
  pub rows : List Row
  pub day : Option ℕ
  pub reversal_of : Option ℕ

unfoldable pub post_all : List Request → Books → Books
post_all [] s = s
post_all (q ∷ qs) s = elim (journal q.clock q.source q.event q.rows q.day q.reversal_of s) [
  | err e ↦ post_all qs s
  | ok (e, s') ↦ post_all qs s'
]

post_all-IsSound : (qs : List Request) (s : Books) → IsSound s → IsSound (post_all qs s)
unfolding post_all
post_all-IsSound [] s v = v
post_all-IsSound (q ∷ qs) s v =
    elim (Result-cases (journal q.clock q.source q.event q.rows q.day q.reversal_of s)) [
      | inr (e, refused) ↦ rw (post_all, refused) (post_all-IsSound qs s v)
      | inl ((e, s'), made) ↦
          let (_, v') =
            journal-IsSound q.clock q.source q.event q.rows q.day q.reversal_of s e s' v made in
          rw (post_all, made) (post_all-IsSound qs s' v')
    ]

-- From books without entries, whatever postings are asked for in whatever order, the debits of all lines
-- add up to the credits.
pub post_all-trial_balance :
    (qs : List Request) (s : Books)
    → s.entries ≡ []
    → all_debits (post_all qs s).entries ≡ all_credits (post_all qs s).entries
post_all-trial_balance qs s none_yet =
    let start : IsSound s = record {
      balanced = subst (All IsBalanced) (sym none_yet) tt;
      once = subst IsOnceOnly (sym none_yet) empty;
    } in
    sides_equal (post_all qs s).entries (post_all-IsSound qs s start).balanced
