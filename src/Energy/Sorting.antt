-- ===== src/Energy/Sorting.antt =====
-- Sorting the readings by their time keeps them, and puts the earliest first and the latest last.
use rexharge_citrineos_core.Prelude.{
  ℕ, suc, ◌≤◌, ◌≡◌, ◌⊎◌, ◌∙◌, inl, inr, refl, ap, subst, Bool, List, [], ◌∷◌, All, length, leb,
  leb→le, arith, Bool-cases, if◌then◌else◌,
}
use rexharge_citrineos_core.Energy.{insert_entry, sort_entries, last_of, Numbers}

module _ {N : Type 0} where
  abbrev pub Mem : ℕ × N → List (ℕ × N) → Type 0
  Mem x [] = ⊥
  Mem x (y ∷ ys) = (x ≡ y) ⊎ Mem x ys

  abbrev pub Sorted : List (ℕ × N) → Type 0
  Sorted [] = Unit
  Sorted (e ∷ es) = All (λ f. e.0 ≤ f.0) es × Sorted es

module _ {N : Type 0} (numbers : Numbers N) where
  abbrev Entry : Type 0
  Entry = ℕ × N

  insert_all :
      (P : Entry → Type 0) (e : Entry) (es : List Entry)
      → P e
      → All P es
      → All P (insert_entry numbers e es)
  unfolding insert_entry
  insert_all P e [] p q = (p, tt)
  insert_all P e (f ∷ fs) p (q, r) = elim (Bool-cases (leb e.0 f.0)) [
    | inl k ↦ rw k (p, (q, r))
    | inr k ↦ rw k (q, insert_all P e fs p r)
  ]

  all_insert :
      (P : Entry → Type 0) (e : Entry) (es : List Entry)
      → All P (insert_entry numbers e es)
      → P e × All P es
  unfolding insert_entry
  all_insert P e [] h = h
  all_insert P e (f ∷ fs) h = elim (Bool-cases (leb e.0 f.0)) [
    | inl k ↦ subst (λ b. All P (if b then e ∷ f ∷ fs else f ∷ insert_entry numbers e fs)) k h
    | inr k ↦
        let (q, r) =
          subst (λ b. All P (if b then e ∷ f ∷ fs else f ∷ insert_entry numbers e fs)) k h in
        let (p, rest) = all_insert P e fs r in (p, (q, rest))
  ]

  mem_insert : (x e : Entry) (es : List Entry) → Mem x (insert_entry numbers e es) → Mem x (e ∷ es)
  unfolding insert_entry
  mem_insert x e [] h = h
  mem_insert x e (f ∷ fs) h = elim (Bool-cases (leb e.0 f.0)) [
    | inl k ↦ at k
    | inr k ↦ elim (at k) [
      | inl same ↦ inr (inl same)
      | inr later ↦ elim (mem_insert x e fs later) [ inl same ↦ inl same | inr m ↦ inr (inr m) ]
    ]
  ]
    where
      at :
          {b : Bool}
          → leb e.0 f.0 ≡ b
          → Mem x (if b then e ∷ f ∷ fs else f ∷ insert_entry numbers e fs)
      at k = subst (λ b. Mem x (if b then e ∷ f ∷ fs else f ∷ insert_entry numbers e fs)) k h

  all_above : (i j : ℕ) (es : List Entry) → i ≤ j → All (λ f. j ≤ f.0) es → All (λ f. i ≤ f.0) es
  all_above i j [] h q = tt
  all_above i j (f ∷ fs) h (q, r) = (omega (arith, h, q), all_above i j fs h r)

  insert_entry-Sorted :
      (e : Entry) (es : List Entry) → Sorted es → Sorted (insert_entry numbers e es)
  unfolding insert_entry
  insert_entry-Sorted e [] h = (tt, tt)
  insert_entry-Sorted e (f ∷ fs) (h, k) = elim (Bool-cases (leb e.0 f.0)) [
    | inl b ↦ let le = leb→le e.0 f.0 b in rw b ((le, all_above e.0 f.0 fs le h), (h, k))
    | inr b ↦ rw b (insert_all (λ x. f.0 ≤ x.0) e fs (ground arith) h, insert_entry-Sorted e fs k)
  ]

  pub sort_entries-Sorted : (es : List Entry) → Sorted (sort_entries numbers es)
  unfolding sort_entries
  sort_entries-Sorted [] = tt
  sort_entries-Sorted (e ∷ es) =
      insert_entry-Sorted e (sort_entries numbers es) (sort_entries-Sorted es)

  pub mem_sort : (x : Entry) (es : List Entry) → Mem x (sort_entries numbers es) → Mem x es
  unfolding sort_entries
  mem_sort x [] h = h
  mem_sort x (e ∷ es) h = elim (mem_insert x e (sort_entries numbers es) h) [
    | inl same ↦ inl same
    | inr m ↦ inr (mem_sort x es m)
  ]

  pub all_sort : (P : Entry → Type 0) (es : List Entry) → All P (sort_entries numbers es) → All P es
  unfolding sort_entries
  all_sort P [] h = tt
  all_sort P (e ∷ es) h =
      let (p, q) = all_insert P e (sort_entries numbers es) h in (p, all_sort P es q)

  length-insert_entry :
      (e : Entry) (es : List Entry) → length (insert_entry numbers e es) ≡ suc (length es)
  unfolding insert_entry
  length-insert_entry e [] = refl
  length-insert_entry e (f ∷ fs) = ground (arith, length-insert_entry e fs)

  pub length-sort_entries : (es : List Entry) → length (sort_entries numbers es) ≡ length es
  unfolding sort_entries
  length-sort_entries [] = refl
  length-sort_entries (e ∷ es) =
      length-insert_entry e (sort_entries numbers es) ∙ ap suc (length-sort_entries es)

  pub mem_last : (e : Entry) (es : List Entry) → Mem (last_of numbers e es) (e ∷ es)
  mem_last e [] = inl refl
  mem_last e (f ∷ fs) = inr (mem_last f fs)

  pub last_above :
      (e : Entry) (es : List Entry)
      → Sorted (e ∷ es)
      → All (λ x. x.0 ≤ (last_of numbers e es).0) (e ∷ es)
  last_above e [] h = (omega arith, tt)
  last_above e (f ∷ fs) ((h, q), k) =
      let (a, rest) = last_above f fs k in (omega (arith, h, a), (a, rest))
