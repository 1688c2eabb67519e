-- ===== src/Ledger/Settlement/Bounds.antt =====
-- What invoices, sources and allocations have left under `allocate` and `release` of
-- ledger/services/settlement.py.
use holansl_backend.Base.{
  ℕ, ◌+◌, ◌<◌, ◌≡◌, refl, sym, subst, ◌∙◌, Bool, true, false, Option, none, some, List, [], ◌∷◌,
  ◌++◌, arith, inl, inr, Bool-cases, Option-cases, ◌==◌, ==_iff, ==_refl, if◌then◌else◌, find,
  find_holds, find-snoc, select, All, All-append, All-zip, ℤ, pos, ◌+ℤ◌, ◌-ℤ◌, ◌≤ℤ◌, -ℤ-parts,
  +ℤ-zero, zero-+ℤ, +ℤ_assoc, -ℤ-+ℤ, -ℤ_comm,
}
use holansl_backend.Ledger.Settlement.{
  SettlementSource, Invoice, AllocationEvent, TaxCollectionAllocation, Settlements, signed, applied,
  of_invoice, of_source, invoice_due, is_reversed_by, source_available,
}
use holansl_backend.Ledger.Settlement.Allocation.{add_allocation}
use holansl_backend.Ledger.Settlement.Release.{is_release_of, released, remaining_of}

-- The row, where there is one, has the property.
abbrev pub IsFor : {A : Type 0} → (A → Type 0) → Option A → Type 0
IsFor P none = Unit
IsFor P (some x) = P x

pub IsFor-every :
    {A : Type 0} → (P : A → Type 0) → (o : Option A) → ((x : A) → o ≡ some x → P x) → IsFor P o
IsFor-every P none h = tt
IsFor-every P (some x) h = h x refl

abbrev pub IsBelow : ℕ → Option ℕ → Type 0
IsBelow n none = Unit
IsBelow n (some k) = k < n

-- The keys of an event are older than `n`.
abbrev pub IsOld : ℕ → AllocationEvent → Type 0
IsOld n e = (e.id < n) × IsBelow n e.release_of

-- Nothing is allocated beyond what an invoice is over, a source has or, by releases, an allocation holds.
pub record IsCovered (s : Settlements) : Type 0 where
  pub invoices :
      (id : ℕ) → IsFor (λ i. pos 0 ≤ℤ invoice_due i none s) (find (λ x. x.id == id) s.invoices)
  pub sources :
      (id : ℕ) → IsFor (λ x. pos 0 ≤ℤ source_available x none s) (find (λ x. x.id == id) s.sources)
  pub allocations :
      (id : ℕ) → IsFor (λ a. pos 0 ≤ℤ remaining_of a s) (find (λ x. x.id == id) s.allocations)
  pub keys : All (IsOld s.next_id) s.allocations

applied-snoc :
    (p : AllocationEvent → Bool) (es : List AllocationEvent) (e : AllocationEvent)
    → applied (select p (es ++ e ∷ []))
      ≡ (if p e then applied (select p es) +ℤ signed e else applied (select p es))
unfolding applied
applied-snoc p [] e = elim (Bool-cases (p e)) [
  | inl y ↦ rw (y, +ℤ-zero, zero-+ℤ) refl
  | inr n ↦ rw n refl
]
applied-snoc p (x ∷ es) e =
    let ih = applied-snoc p es e in
    elim (Bool-cases (p x)) [
      | inl y ↦ elim (Bool-cases (p e)) [
        | inl z ↦ rw (y, ih, z, +ℤ_assoc) refl
        | inr z ↦ rw (y, ih, z) refl
      ]
      | inr n ↦ rw n ih
    ]

released-snoc :
    (id : ℕ) (es : List AllocationEvent) (e : AllocationEvent)
    → released id (es ++ e ∷ []) ≡ released id es + (if is_release_of id e then e.amount else 0)
unfolding released
released-snoc id [] e = ground arith
released-snoc id (x ∷ es) e = let ih = released-snoc id es e in ground arith

released-none : (n : ℕ) (es : List AllocationEvent) → All (IsOld n) es → released n es ≡ 0
unfolding released
released-none n [] h = refl
released-none n (x ∷ es) h = elim (Option-cases x.release_of) [
  | inl e ↦ let rest = released-none n es h.1 in ground (arith, e)
  | inr (k, e) ↦
      let old : k < n = subst (IsBelow n) e h.0.1 in
      let rest = released-none n es h.1 in ground (arith, e)
]

-- What a new event takes from an invoice, a source and an allocation.
pub due-add :
    (i : Invoice) (e : AllocationEvent) (cs : List TaxCollectionAllocation) (s : Settlements)
    → invoice_due i none (add_allocation e cs s)
      ≡ (if e.invoice == i.id then invoice_due i none s -ℤ signed e else invoice_due i none s)
unfolding invoice_due
due-add i e cs s =
    let snoc = applied-snoc (of_invoice i.id none) s.allocations e in
    elim (Bool-cases (e.invoice == i.id)) [
      | inl y ↦ rw (snoc, y, -ℤ-+ℤ) refl
      | inr n ↦ rw (snoc, n) refl
    ]

pub available-add :
    (x : SettlementSource) (e : AllocationEvent) (cs : List TaxCollectionAllocation)
    (s : Settlements)
    → source_available x none (add_allocation e cs s) ≡ (
        if is_reversed_by x.record_id none s
        then pos 0
        else if e.source == x.id
        then source_available x none s -ℤ signed e
        else source_available x none s)
unfolding source_available
available-add x e cs s =
    let snoc = applied-snoc (of_source x.id none) s.allocations e in
    elim (Bool-cases (is_reversed_by x.record_id none s)) [
      | inl r ↦ rw r refl
      | inr r ↦ elim (Bool-cases (e.source == x.id)) [
        | inl y ↦ rw (r, snoc, y, -ℤ-+ℤ) (-ℤ_comm _ _ _)
        | inr n ↦ rw (r, snoc, n) refl
      ]
    ]

pub left-add :
    (a e : AllocationEvent) (cs : List TaxCollectionAllocation) (s : Settlements)
    → remaining_of a (add_allocation e cs s)
      ≡ (if is_release_of a.id e then remaining_of a s -ℤ pos e.amount else remaining_of a s)
unfolding ◌-ℤ◌
left-add a e cs s =
    let snoc = released-snoc a.id s.allocations e in
    elim (Bool-cases (is_release_of a.id e)) [
      | inl y ↦ rw (snoc, y) (ground arith)
      | inr n ↦ rw (snoc, n) (ground arith)
    ]

take-some : (x v : ℤ) → v ≤ℤ x → pos 0 ≤ℤ (x -ℤ v)
take-some x v h = let parts = -ℤ-parts x v in ground arith

pub found_by :
    {A : Type 0} (key : A → ℕ) (xs : List A) {x : A} (j k : ℕ)
    → find (λ x. key x == k) xs ≡ some x
    → j == key x ≡ true
    → find (λ x. key x == j) xs ≡ some x
found_by key xs {x} j k f y =
    let here : key x ≡ k = (==_iff (key x) k).0 (find_holds (λ x. key x == k) xs f) in
    let same : j ≡ k = (==_iff j (key x)).0 y ∙ here in
    subst (λ j. find (λ x. key x == j) xs ≡ some x) (sym same) f

module _ (e : AllocationEvent) (cs : List TaxCollectionAllocation) (s : Settlements)
    (c : IsCovered s) where
  due-covered :
      IsFor (λ i. signed e ≤ℤ invoice_due i none s) (find (λ x. x.id == e.invoice) s.invoices)
      → (k : ℕ)
      → IsFor
          (λ i. pos 0 ≤ℤ invoice_due i none (add_allocation e cs s))
          (find (λ x. x.id == k) s.invoices)
  due-covered due k = IsFor-every _ (find (λ x. x.id == k) s.invoices) (λ i f.
      let before : pos 0 ≤ℤ invoice_due i none s =
        subst (IsFor (λ i. pos 0 ≤ℤ invoice_due i none s)) f (c.invoices k) in
      elim (Bool-cases (e.invoice == i.id)) [
        | inl y ↦
            let same = found_by (λ x. x.id) s.invoices e.invoice k f y in
            rw (due-add i e cs s, y)
              (take-some (invoice_due i none s) (signed e)
                (subst (IsFor (λ i. signed e ≤ℤ invoice_due i none s)) same due))
        | inr n ↦ rw (due-add i e cs s, n) before
      ])

  available-covered :
      IsFor (λ x. signed e ≤ℤ source_available x none s) (find (λ x. x.id == e.source) s.sources)
      → (k : ℕ)
      → IsFor
          (λ x. pos 0 ≤ℤ source_available x none (add_allocation e cs s))
          (find (λ x. x.id == k) s.sources)
  available-covered available k = IsFor-every _ (find (λ x. x.id == k) s.sources) (λ x f.
      let before : pos 0 ≤ℤ source_available x none s =
        subst (IsFor (λ x. pos 0 ≤ℤ source_available x none s)) f (c.sources k) in
      elim (Bool-cases (is_reversed_by x.record_id none s)) [
        | inl r ↦ rw (available-add x e cs s, r) (ground arith)
        | inr r ↦ elim (Bool-cases (e.source == x.id)) [
          | inl y ↦
              let same = found_by (λ x. x.id) s.sources e.source k f y in
              rw (available-add x e cs s, r, y)
                (take-some (source_available x none s) (signed e)
                  (subst (IsFor (λ x. signed e ≤ℤ source_available x none s)) same available))
          | inr n ↦ rw (available-add x e cs s, r, n) before
        ]
      ])

  new-covered :
      e.id ≡ s.next_id
      → IsBelow s.next_id e.release_of
      → pos 0 ≤ℤ remaining_of e (add_allocation e cs s)
  new-covered new old =
      let none_yet : released e.id s.allocations ≡ 0 =
        rw new (released-none s.next_id s.allocations c.keys) in
      let other : is_release_of e.id e ≡ false = elim (Option-cases e.release_of) [
        | inl n ↦ ground (arith, n)
        | inr (k, y) ↦
            let below : k < s.next_id = subst (IsBelow s.next_id) y old in ground (arith, y)
      ] in
      rw (left-add e e cs s, other, none_yet) (take-some (pos e.amount) (pos 0) (ground arith))

  left-covered :
      e.id ≡ s.next_id
      → IsBelow s.next_id e.release_of
      → ((k : ℕ)
          → e.release_of ≡ some k
          → IsFor (λ a. pos e.amount ≤ℤ remaining_of a s) (find (λ x. x.id == k) s.allocations))
      → (k : ℕ)
      → IsFor
          (λ a. pos 0 ≤ℤ remaining_of a (add_allocation e cs s))
          (find (λ x. x.id == k) (s.allocations ++ e ∷ []))
  left-covered new old left k = elim (Option-cases (find (λ x. x.id == k) s.allocations)) [
    | inl n ↦
        rw (find-snoc (λ x. x.id == k) s.allocations e, n)
          (elim (Bool-cases (e.id == k)) [ inl y ↦ rw y (new-covered new old) | inr d ↦ rw d tt ])
    | inr (a, f) ↦
        let before : pos 0 ≤ℤ remaining_of a s =
          subst (IsFor (λ a. pos 0 ≤ℤ remaining_of a s)) f (c.allocations k) in
        rw (find-snoc (λ x. x.id == k) s.allocations e, f)
          (elim (Bool-cases (is_release_of a.id e)) [
            | inl y ↦
                let of_a : e.release_of ≡ some a.id = ground (arith, y) in
                let same : find (λ x. x.id == a.id) s.allocations ≡ some a =
                  found_by (λ x. x.id) s.allocations a.id k f (==_refl a.id) in
                let enough : pos e.amount ≤ℤ remaining_of a s =
                  subst (IsFor (λ a. pos e.amount ≤ℤ remaining_of a s)) same (left a.id of_a) in
                rw (left-add a e cs s, y) (take-some (remaining_of a s) (pos e.amount) enough)
            | inr n ↦ rw (left-add a e cs s, n) before
          ])
  ]

IsBelow-suc : (n : ℕ) (o : Option ℕ) → IsBelow n o → IsBelow (n + 1) o
IsBelow-suc n none h = tt
IsBelow-suc n (some k) h = ground arith

pub IsCovered-add :
    (e : AllocationEvent) (cs : List TaxCollectionAllocation) (s : Settlements)
    → IsCovered s
    → e.id ≡ s.next_id
    → IsBelow s.next_id e.release_of
    → IsFor (λ i. signed e ≤ℤ invoice_due i none s) (find (λ x. x.id == e.invoice) s.invoices)
    → IsFor (λ x. signed e ≤ℤ source_available x none s) (find (λ x. x.id == e.source) s.sources)
    → ((k : ℕ)
        → e.release_of ≡ some k
        → IsFor (λ a. pos e.amount ≤ℤ remaining_of a s) (find (λ x. x.id == k) s.allocations))
    → IsCovered (add_allocation e cs s)
IsCovered-add e cs s c new old due available left = record {
  invoices = due-covered e cs s c due;
  sources = available-covered e cs s c available;
  allocations = left-covered e cs s c new old left;
  keys =
      All-append (IsOld (s.next_id + 1)) s.allocations (e ∷ [])
        (All-zip (IsOld s.next_id) (IsOld s.next_id) (IsOld (s.next_id + 1)) s.allocations
          (λ x o p. (ground (arith, o.0), IsBelow-suc s.next_id x.release_of o.1)) c.keys c.keys)
        ((ground (arith, new), IsBelow-suc s.next_id e.release_of old), tt);
}
