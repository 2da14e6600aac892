-- ===== src/Energy/Readings.antt =====
-- The energy by the register of the meter.
use rexharge_citrineos_core.Prelude.{
  ℕ, ◌≤◌, ◌≡◌, refl, sym, subst, List, [], ◌∷◌, All, length, arith, inl,
}
use rexharge_citrineos_core.Rpc.Message.{ok}
use rexharge_citrineos_core.Energy.{
  Numbers, MeterValue, register_kind, is_valid_context, filter, values_map, sort_entries, last_of,
  calculate_total_kwh, from_register, get_total_kwh,
}
use rexharge_citrineos_core.Energy.Sorting.{
  Mem, Sorted, sort_entries-Sorted, mem_sort, all_sort, length-sort_entries, mem_last, last_above,
}

module _ {N : Type 0} (numbers : Numbers N) where
  -- The first of some entries and the last of them, by their time.
  pub record Span (m : List (ℕ × N)) : Type 0 where
    pub first : ℕ × N
    pub last : ℕ × N
    pub first_in : Mem first m
    pub last_in : Mem last m
    pub earliest : All (λ x. first.0 ≤ x.0) m
    pub latest : All (λ x. x.0 ≤ last.0) m

  -- the entries have a span, of which the total is the difference
  abbrev pub IsSpanned : List (ℕ × N) → N → Type 0
  IsSpanned m total = (s : Span m) × (total ≡ numbers.minus s.last.1 s.first.1)

  sorted_total :
      (m l : List (ℕ × N))
      → sort_entries numbers m ≡ l
      → 2 ≤ length l
      → IsSpanned m (calculate_total_kwh numbers l)
  unfolding calculate_total_kwh
  sorted_total m [] q n = ground arith
  sorted_total m (e ∷ []) q n = ground arith
  sorted_total m (e ∷ f ∷ fs) q n =
      let sorted = subst Sorted q (sort_entries-Sorted numbers m) in
      (
        record {
          first = e;
          last = last_of numbers f fs;
          first_in = mem_sort numbers e m (subst (Mem e) (sym q) (inl refl));
          last_in =
              mem_sort numbers (last_of numbers f fs) m
                (subst (Mem (last_of numbers f fs)) (sym q) (mem_last numbers e (f ∷ fs)));
          earliest =
              all_sort numbers (λ x. e.0 ≤ x.0) m
                (subst (All (λ x. e.0 ≤ x.0)) (sym q) (omega arith, sorted.0));
          latest =
              all_sort numbers (λ x. x.0 ≤ (last_of numbers f fs).0) m
                (subst (All (λ x. x.0 ≤ (last_of numbers f fs).0)) (sym q)
                  (last_above numbers e (f ∷ fs) sorted));
        },
        refl,
      )

  -- the readings that count
  abbrev pub valid_values : List (MeterValue N) → List (MeterValue N)
  valid_values mvs = filter (λ mv. is_valid_context mv.first.context) mvs

  register_total :
      (mvs : List (MeterValue N)) (m : List (ℕ × N))
      → 2 ≤ length m
      → (total : N) × (from_register numbers mvs (ok m) ≡ ok total) × IsSpanned m total
  unfolding from_register
  register_total mvs [] n = ground arith
  register_total mvs (e ∷ es) n = (
    calculate_total_kwh numbers (sort_entries numbers (e ∷ es)),
    refl,
    sorted_total (e ∷ es) _ refl (omega (arith, n, length-sort_entries numbers (e ∷ es))),
  )

  -- Where the valid readings have at least two values of the register, the total is the value at the
  -- latest time less the value at the earliest, in whatever order the readings are.
  pub get_total_kwh-IsSpanned :
      (mvs : List (MeterValue N)) (m : List (ℕ × N))
      → values_map numbers register_kind (valid_values mvs) [] ≡ ok m
      → 2 ≤ length m
      → (total : N) × (get_total_kwh numbers mvs ≡ ok total) × IsSpanned m total
  unfolding get_total_kwh
  get_total_kwh-IsSpanned mvs m h n = rw h (register_total (valid_values mvs) m n)
