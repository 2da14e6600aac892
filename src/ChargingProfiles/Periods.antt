-- ===== src/ChargingProfiles/Periods.antt =====
-- The order of the periods of a schedule.
use rexharge_citrineos_core.Prelude.{
  ◌≡◌, ℕ, ◌≤◌, true, List, [], ◌∷◌, All, arith, leb, Bool-cases, inl, inr, ◌==◌,
}
use rexharge_citrineos_core.ChargingProfiles.{Period}
use rexharge_citrineos_core.ChargingProfiles.Setting.{insert_period, sort_periods, starts_at_zero}

-- From the earliest period to the latest.
abbrev pub IsSorted : List Period → Type 0
IsSorted [] = Unit
IsSorted (p ∷ ps) = All (λ q. p.start_period ≤ q.start_period) ps × IsSorted ps

All-weaken :
    (a b : ℕ) (ps : List Period)
    → a ≤ b
    → All (λ q. b ≤ q.start_period) ps
    → All (λ q. a ≤ q.start_period) ps
All-weaken a b [] h k = tt
All-weaken a b (p ∷ ps) h k = (omega arith, All-weaken a b ps h k.1)

insert_period-All :
    (a : ℕ) (p : Period) (ps : List Period)
    → a ≤ p.start_period
    → All (λ q. a ≤ q.start_period) ps
    → All (λ q. a ≤ q.start_period) (insert_period p ps)
unfolding insert_period
insert_period-All a p [] h k = (h, tt)
insert_period-All a p (q ∷ qs) h k = elim (Bool-cases (leb p.start_period q.start_period)) [
  | inl e ↦ rw e (h, k)
  | inr e ↦ rw e (k.0, insert_period-All a p qs h k.1)
]

insert_period-IsSorted :
    (p : Period) (ps : List Period) → IsSorted ps → IsSorted (insert_period p ps)
unfolding insert_period
insert_period-IsSorted p [] h = (tt, tt)
insert_period-IsSorted p (q ∷ qs) h = elim (Bool-cases (leb p.start_period q.start_period)) [
  | inl e ↦ rw e (
      let le : p.start_period ≤ q.start_period = ground arith in
      ((le, All-weaken p.start_period q.start_period qs le h.0), h))
  | inr e ↦
      rw e
        (insert_period-All q.start_period p qs (ground arith) h.0, insert_period-IsSorted p qs h.1)
]

pub sort_periods-IsSorted : (ps : List Period) → IsSorted (sort_periods ps)
unfolding sort_periods
sort_periods-IsSorted [] = tt
sort_periods-IsSorted (p ∷ ps) =
    insert_period-IsSorted p (sort_periods ps) (sort_periods-IsSorted ps)

insert_at_zero :
    (p : Period) (ps : List Period)
    → (p.start_period == 0) ≡ true
    → starts_at_zero (insert_period p ps) ≡ true
unfolding insert_period
insert_at_zero p [] h = h
insert_at_zero p (q ∷ qs) h =
    let first : leb p.start_period q.start_period ≡ true = ground arith in rw first h

-- A schedule whose first period starts at zero still does when it is sorted.
pub sort_periods_at_zero :
    (ps : List Period) → starts_at_zero ps ≡ true → starts_at_zero (sort_periods ps) ≡ true
unfolding sort_periods
sort_periods_at_zero [] h = cc
sort_periods_at_zero (p ∷ ps) h = insert_at_zero p (sort_periods ps) h
