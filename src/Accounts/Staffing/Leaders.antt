-- ===== src/Accounts/Staffing/Leaders.antt =====
-- The primary leaders that `DepartmentLeadership.clean` of accounts/models.py lets into the table.
use holansl_backend.Base.{
  ℕ, ◌≡◌, refl, Bool, true, false, not, ◌&&◌, ◌||◌, List, [], ◌∷◌, arith, inl, inr, Bool-cases,
  Option-cases, ◌==◌, leb, none, some, any, All, All-append, ok,
}
use holansl_backend.Accounts.Data.{DepartmentLeadership, Directory}
use holansl_backend.Accounts.Staffing.{
  find_profile, conflicts, clean_leadership, add_leadership, save_leadership, put_leadership,
}

-- The day is in the period of a primary leader; a period without an end goes on.
abbrev pub is_primary_on : ℕ → DepartmentLeadership → Bool
is_primary_on day l =
    l.is_primary
    && leb l.active_from day
    && elim l.active_until [ none ↦ true | some e ↦ leb day e ]

-- Both rows are primary leaders of one department on the day.
abbrev pub share_day : ℕ → DepartmentLeadership → DepartmentLeadership → Bool
share_day day x y = is_primary_on day x && is_primary_on day y && x.department == y.department

-- Two rows with different keys that share no day.
abbrev pub Apart : DepartmentLeadership → DepartmentLeadership → Type 0
Apart x y = ((x.id == y.id) ≡ false) × ((day : ℕ) → share_day day x y ≡ false)

-- Keys are unique, and no department has two primary leaders on one day.
abbrev pub HasOnePrimary : List DepartmentLeadership → Type 0
HasOnePrimary [] = Unit
HasOnePrimary (x ∷ xs) = All (Apart x) xs × HasOnePrimary xs

==_sym : (a b : ℕ) → (a == b) ≡ false → (b == a) ≡ false
==_sym a b h = ground arith

share_day_sym :
    (day : ℕ) (x y : DepartmentLeadership) → share_day day x y ≡ false → share_day day y x ≡ false
share_day_sym day x y h = elim (Bool-cases (share_day day y x)) [ inr e ↦ e | inl e ↦ ground arith ]

Apart-sym : (x y : DepartmentLeadership) → Apart x y → Apart y x
Apart-sym x y h = (==_sym x.id y.id h.0, λ day. share_day_sym day x y (h.1 day))

-- Periods with a day in common overlap in the sense of the check.
share_day-conflicts :
    (day : ℕ) (l x : DepartmentLeadership) → conflicts l x ≡ false → share_day day l x ≡ false
share_day-conflicts day l x h = elim (Bool-cases (share_day day l x)) [
  | inr e ↦ e
  | inl e ↦ ground arith
]

append-Apart :
    (l : DepartmentLeadership) (ls : List DepartmentLeadership)
    → All (Apart l) ls
    → HasOnePrimary ls
    → HasOnePrimary (add_leadership l ls)
append-Apart l [] a h = (tt, tt)
append-Apart l (x ∷ xs) a h =
    (All-append (Apart x) xs (l ∷ []) h.0 (Apart-sym l x a.0, tt), append-Apart l xs a.1 h.1)

-- No day shared with a row of another key.
abbrev Clears : DepartmentLeadership → DepartmentLeadership → Type 0
Clears l x = (x.id == l.id) ≡ false → (day : ℕ) → share_day day l x ≡ false

untouched :
    (x l : DepartmentLeadership) (xs : List DepartmentLeadership)
    → (x.id == l.id) ≡ true
    → All (Apart x) xs
    → (save_leadership l xs ≡ xs) × All (λ y. (y.id == l.id) ≡ false) xs
untouched x l [] e h = (refl, tt)
untouched x l (y ∷ ys) e h =
    let rest = untouched x l ys e h.1 in
    let other : (y.id == l.id) ≡ false = ground (arith, e, h.0.0) in
    (rw (other, rest.0) refl, (other, rest.1))

Apart-others :
    (l : DepartmentLeadership) (xs : List DepartmentLeadership)
    → All (Clears l) xs
    → All (λ y. (y.id == l.id) ≡ false) xs
    → All (Apart l) xs
Apart-others l [] c h = tt
Apart-others l (y ∷ ys) c h = ((==_sym y.id l.id h.0, c.0 h.0), Apart-others l ys c.1 h.1)

Apart-save :
    (x l : DepartmentLeadership) (xs : List DepartmentLeadership)
    → Apart x l
    → All (Apart x) xs
    → All (Apart x) (save_leadership l xs)
Apart-save x l [] new h = tt
Apart-save x l (y ∷ ys) new h = (
  elim (Bool-cases (y.id == l.id)) [ inl e ↦ rw e new | inr e ↦ rw e h.0 ],
  Apart-save x l ys new h.1,
)

save-HasOnePrimary :
    (l : DepartmentLeadership) (ls : List DepartmentLeadership)
    → All (Clears l) ls
    → HasOnePrimary ls
    → HasOnePrimary (save_leadership l ls)
save-HasOnePrimary l [] c h = tt
save-HasOnePrimary l (x ∷ xs) c h = elim (Bool-cases (x.id == l.id)) [
  | inl e ↦
      let (same, others) = untouched x l xs e h.0 in
      rw (e, same) (Apart-others l xs c.1 others, h.1)
  | inr e ↦ rw e (
    Apart-save x l xs (e, λ day. share_day_sym day l x (c.0 e day)) h.0,
    save-HasOnePrimary l xs c.1 h.1,
  )
]

any-Clears :
    (stored : Bool) (l : DepartmentLeadership) (ls : List DepartmentLeadership)
    → any (λ x. not (stored && x.id == l.id) && conflicts l x) ls ≡ false
    → All (Clears l) ls
any-Clears stored l [] h = tt
any-Clears stored l (x ∷ xs) h = (
  λ e day. share_day-conflicts day l x (ground (arith, e)),
  any-Clears stored l xs (ground arith),
)

fresh-Apart :
    (l : DepartmentLeadership) (ls : List DepartmentLeadership)
    → any (λ x. x.id == l.id) ls ≡ false
    → All (Clears l) ls
    → All (Apart l) ls
fresh-Apart l [] h c = tt
fresh-Apart l (x ∷ xs) h c =
    let other : (x.id == l.id) ≡ false = ground arith in
    ((==_sym x.id l.id other, c.0 other), fresh-Apart l xs (ground arith) c.1)

cleaned-Clears :
    (d : Directory) (stored : Bool) (l : DepartmentLeadership)
    → clean_leadership d stored l ≡ ok tt
    → All (Clears l) d.leaderships
unfolding clean_leadership
cleaned-Clears d stored l h = elim (Option-cases (find_profile l.manager d.profiles)) [
  | inl gone ↦ ground (arith, gone)
  | inr (p, found) ↦ any-Clears stored l d.leaderships (ground (arith, found))
]

-- A leadership that `clean` accepts keeps the table free of two primary leaders of one department on one
-- day, whether it is added under a new key or replaces the row with its key.
pub clean_leadership-HasOnePrimary :
    (d : Directory) (stored : Bool) (l : DepartmentLeadership)
    → HasOnePrimary d.leaderships
    → (stored || not (any (λ x. x.id == l.id) d.leaderships)) ≡ true
    → clean_leadership d stored l ≡ ok tt
    → HasOnePrimary (put_leadership stored l d.leaderships)
clean_leadership-HasOnePrimary d true l v new accepted =
    save-HasOnePrimary l d.leaderships (cleaned-Clears d true l accepted) v
clean_leadership-HasOnePrimary d false l v new accepted =
    append-Apart l d.leaderships
      (fresh-Apart l d.leaderships (ground arith) (cleaned-Clears d false l accepted)) v
