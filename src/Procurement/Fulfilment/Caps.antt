-- ===== src/Procurement/Fulfilment/Caps.antt =====
-- Rows that take from the quantity of a parent row.
use holansl_backend.Base.{
  ℕ, ◌+◌, ◌≤◌, ◌≡◌, refl, sym, subst, false, none, some, List, [], ◌∷◌, ◌++◌, ◌==◌, ==_iff, ==_refl,
  arith, inl, inr, if◌then◌else◌, Bool-cases, Option-cases, find, find_holds, find-snoc,
}
use holansl_backend.Procurement.Fulfilment.{total}

-- What the row with the key may give; nothing where there is none.
abbrev pub capacity : {A : Type 0} → (A → ℕ) → (A → ℕ) → ℕ → List A → ℕ
capacity id cap k xs = elim (find (λ x. id x == k) xs) [ none ↦ 0 | some x ↦ cap x ]

pub capacity-found :
    {A : Type 0} (id cap : A → ℕ) (k : ℕ) (xs : List A) (x : A)
    → find (λ x. id x == k) xs ≡ some x
    → (capacity id cap k xs ≡ cap x) × (id x ≡ k)
capacity-found id cap k xs x f =
    (rw (capacity, f) refl, (==_iff (id x) k).0 (find_holds (λ x. id x == k) xs f))

-- A new parent takes nothing from the others.
pub capacity-snoc :
    {A : Type 0} (id cap : A → ℕ) (k : ℕ) (xs : List A) (y : A)
    → capacity id cap k xs ≤ capacity id cap k (xs ++ y ∷ [])
capacity-snoc id cap k xs y = elim (Option-cases (find (λ x. id x == k) xs)) [
  | inl n ↦
      let none_left : capacity id cap k xs ≡ 0 = rw (capacity, n) refl in omega (arith, none_left)
  | inr (x, f) ↦ rw (capacity, find-snoc (λ x. id x == k) xs y, f) (omega arith)
]

pub total-snoc :
    {C : Type 0} (parent quantity : C → ℕ) (k : ℕ) (xs : List C) (y : C)
    → total parent quantity k (xs ++ y ∷ [])
      ≡ total parent quantity k xs + (if parent y == k then quantity y else 0)
unfolding total
total-snoc parent quantity k [] y = ground arith
total-snoc parent quantity k (x ∷ xs) y = let ih = total-snoc parent quantity k xs y in ground arith

module _ {A : Type 0} (id cap : A → ℕ) (j : ℕ) (xs : List A) (x : A)
    (found : find (λ x. id x == j) xs ≡ some x) where
  pub IsWithin-here :
      (count : ℕ → ℕ) → ((k : ℕ) → count k ≤ capacity id cap k xs) → count (id x) ≤ cap x
  IsWithin-here count within =
      let (has, key) = capacity-found id cap j xs x found in
      subst (λ n. count (id x) ≤ n) has
        (subst (λ k. count (id x) ≤ capacity id cap k xs) key (within (id x)))

  -- A count that grows only at one parent, and there within its capacity.
  pub IsWithin-grow :
      (before after : ℕ → ℕ)
      → ((k : ℕ) → before k ≤ capacity id cap k xs)
      → ((k : ℕ) → (id x == k) ≡ false → after k ≡ before k)
      → after (id x) ≤ cap x
      → (k : ℕ) → after k ≤ capacity id cap k xs
  IsWithin-grow before after within others here k = elim (Bool-cases (id x == k)) [
    | inl y ↦
        let same : id x ≡ k = (==_iff (id x) k).0 y in
        let (has, key) = capacity-found id cap j xs x found in
        let room : after (id x) ≤ capacity id cap (id x) xs =
          subst (λ k. after (id x) ≤ capacity id cap k xs) (sym key) (rw has here) in
        subst (λ k. after k ≤ capacity id cap k xs) same room
    | inr n ↦ rw (others k n) (within k)
  ]

  -- One more row that takes from the parent.
  pub IsWithin-take :
      {C : Type 0} (parent quantity : C → ℕ) (cs : List C) (c : C)
      → ((k : ℕ) → total parent quantity k cs ≤ capacity id cap k xs)
      → parent c ≡ id x
      → total parent quantity (id x) cs + quantity c ≤ cap x
      → (k : ℕ) → total parent quantity k (cs ++ c ∷ []) ≤ capacity id cap k xs
  IsWithin-take parent quantity cs c within its fits =
      IsWithin-grow (λ k. total parent quantity k cs) (λ k. total parent quantity k (cs ++ c ∷ []))
        within (λ k n. rw (total-snoc parent quantity k cs c, its, n) (omega arith))
        (rw (total-snoc parent quantity (id x) cs c, its, ==_refl (id x)) fits)
