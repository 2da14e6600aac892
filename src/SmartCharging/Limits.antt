-- ===== src/SmartCharging/Limits.antt =====
-- No limit is above those of the stored profile of the highest stack level.
use rexharge_citrineos_core.Prelude.{
  ℕ, suc, ◌≤◌, String, ◌≡◌, ◌↔◌, ◌⊎◌, inl, inr, refl, ap, subst, Option, none, some, List, [], ◌∷◌,
  All, length, ◌==◌, arith, Bool-cases,
}
use rexharge_citrineos_core.Rpc.Message.{Result, ok, throw, Exception}
use rexharge_citrineos_core.SmartCharging.{
  ChargingNeeds, ChargingProfile, ChargingSchedule, ChargingSchedulePeriod, Profiles, Rate, or_then,
  check_periods, check_schedules, validate_limit, checked, calculate_from,
  calculate_charging_profile, rate_of, compare_periods, check_against,
  check_limits_of_charging_schedule,
}

-- every limit of a profile is at least this one
abbrev pub IsWithin : ℕ → Option ChargingProfile → Type 0
IsWithin limit none = Unit
IsWithin limit (some profile) = All (λ s. All (λ p. limit ≤ p.limit) s.periods) profile.schedules

periods_sound :
    (limit : ℕ) (ps : List ChargingSchedulePeriod)
    → check_periods limit ps ≡ none
    → All (λ p. limit ≤ p.limit) ps
unfolding check_periods
periods_sound limit [] h = tt
periods_sound limit (p ∷ ps) h = (ground arith, periods_sound limit ps (ground arith))

schedules_sound :
    (limit : ℕ) (ss : List ChargingSchedule)
    → check_schedules limit ss ≡ none
    → All (λ s. All (λ p. limit ≤ p.limit) s.periods) ss
unfolding check_schedules
schedules_sound limit [] h = tt
schedules_sound limit (s ∷ ss) h =
    let (a, b) = both (check_periods limit s.periods) (check_schedules limit ss) h in
    (periods_sound limit s.periods a, schedules_sound limit ss b)
  where
    both : (a b : Option Exception) → or_then a b ≡ none → (a ≡ none) × (b ≡ none)
    both none b h = (refl, h)
    both (some e) b h = ground arith

validate_sound :
    (limit : ℕ) (o : Option ChargingProfile) → validate_limit limit o ≡ none → IsWithin limit o
unfolding validate_limit
validate_sound limit none h = tt
validate_sound limit (some profile) h = schedules_sound limit profile.schedules h

checked_ok :
    (o : Option Exception) (a b : ChargingProfile) → checked o a ≡ ok b → (o ≡ none) × (a ≡ b)
unfolding checked
checked_ok none a b h = (refl, cc h)
checked_ok (some e) a b h = ground arith

module _ (profiles : Profiles) (now : ℕ) (transaction : String) (needs : ChargingNeeds) where
  -- every period of a profile is within the stored one
  abbrev pub AllWithin : ChargingProfile → Type 0
  AllWithin profile =
      All (λ s. All (λ p. IsWithin p.limit profiles.highest) s.periods) profile.schedules

  calculated_within :
      (r : Result Rate) (profile : ChargingProfile)
      → calculate_from profiles now transaction needs r ≡ ok profile
      → AllWithin profile
  unfolding calculate_from
  calculated_within (throw e) profile h = ground arith
  calculated_within (ok r) profile h =
      let (a, b) = checked_ok _ _ profile h in
      subst AllWithin b ((validate_sound r.limit profiles.highest a, tt), tt)

  -- No limit of a profile that is calculated is a greater number than any limit of the profile of the
  -- transaction that is stored with the highest stack level, if there is one: whether that one is active
  -- or not, and whatever the units of the two are, which the code does not compare.
  pub calculate_charging_profile-AllWithin :
      (profile : ChargingProfile)
      → calculate_charging_profile profiles now transaction needs ≡ ok profile
      → AllWithin profile
  unfolding calculate_charging_profile
  calculate_charging_profile-AllWithin profile h = calculated_within (rate_of needs) profile h

-- Each given period is at most the existing one in its place, and they are as many.
abbrev pub IsBelow : List ChargingSchedulePeriod → List ChargingSchedulePeriod → Type 0
IsBelow [] [] = Unit
IsBelow [] (q ∷ existing) = ⊥
IsBelow (p ∷ given) [] = ⊥
IsBelow (p ∷ given) (q ∷ existing) = (p.limit ≤ q.limit) × IsBelow given existing

below_length :
    (given existing : List ChargingSchedulePeriod)
    → IsBelow given existing
    → length given ≡ length existing
below_length [] [] h = refl
below_length [] (q ∷ existing) h = elim h [ ]
below_length (p ∷ given) [] h = elim h [ ]
below_length (p ∷ given) (q ∷ existing) (h, k) = ap suc (below_length given existing k)

compare_of_below :
    (given existing : List ChargingSchedulePeriod)
    → IsBelow given existing
    → compare_periods given existing ≡ none
unfolding compare_periods
compare_of_below [] [] h = refl
compare_of_below [] (q ∷ existing) h = elim h [ ]
compare_of_below (p ∷ given) [] h = elim h [ ]
compare_of_below (p ∷ given) (q ∷ existing) (h, k) =
    ground (arith, compare_of_below given existing k)

compare_periods-IsBelow :
    (given existing : List ChargingSchedulePeriod)
    → length given ≡ length existing
    → compare_periods given existing ≡ none
    → IsBelow given existing
unfolding compare_periods
compare_periods-IsBelow [] [] n h = tt
compare_periods-IsBelow [] (q ∷ existing) n h = ground arith
compare_periods-IsBelow (p ∷ given) [] n h = ground arith
compare_periods-IsBelow (p ∷ given) (q ∷ existing) n h =
    (ground arith, compare_periods-IsBelow given existing (ground arith) (ground arith))

one_iff :
    (given : List ChargingSchedulePeriod) (s : ChargingSchedule)
    → (check_against given (s ∷ []) ≡ none) ↔ IsBelow given s.periods
unfolding check_against
one_iff given s = elim (Bool-cases (length given == length s.periods)) [
  | inl k ↦
      rw k
        (compare_periods-IsBelow given s.periods (ground arith), compare_of_below given s.periods)
  | inr k ↦ rw k (λ h. ground arith, λ h. ground (arith, below_length given s.periods h))
]

-- The stored profile has one schedule, and the given periods are below those of it.
abbrev pub IsCompatible : List ChargingSchedulePeriod → List ChargingSchedule → Type 0
IsCompatible given ss = (s : ChargingSchedule) × (ss ≡ s ∷ []) × IsBelow given s.periods

head_of : (s t : ChargingSchedule) → s ∷ [] ≡ t ∷ [] → t ≡ s
head_of s t h = cc h

against_iff :
    (given : List ChargingSchedulePeriod) (ss : List ChargingSchedule)
    → (check_against given ss ≡ none) ↔ IsCompatible given ss
unfolding check_against
against_iff given [] = (λ h. ground arith, λ h. ground arith)
against_iff given (s ∷ []) = (
  λ h. (s, refl, (one_iff given s).0 h),
  λ (t, same, below).
      (one_iff given s).1 (subst (λ u. IsBelow given u.periods) (head_of s t same) below),
)
against_iff given (s ∷ t ∷ rest) = (λ h. ground arith, λ h. ground arith)

-- A schedule that a station reports passes exactly if no profile is stored, or the one of the highest stack
-- level has one schedule, with as many periods, and each reported limit is at most the one in its place.
check_limits_of_charging_schedule_iff :
    (profiles : Profiles) (given : List ChargingSchedulePeriod)
    → (check_limits_of_charging_schedule profiles given ≡ none) ↔ (
        (profiles.highest ≡ none)
        ⊎ ((profile : ChargingProfile) × (profiles.highest ≡ some profile)
            × IsCompatible given profile.schedules))
unfolding check_limits_of_charging_schedule
check_limits_of_charging_schedule_iff profiles given = of_highest profiles.highest
  where
    same_profile : (p q : ChargingProfile) → some p ≡ some q → q ≡ p
    same_profile p q h = cc h

    of_highest :
        (o : Option ChargingProfile)
        → ((elim o [ none ↦ none | some profile ↦ check_against given profile.schedules ]) ≡ none)
          ↔ ((o ≡ none)
              ⊎ ((profile : ChargingProfile) × (o ≡ some profile)
                  × IsCompatible given profile.schedules))
    of_highest none = (λ h. inl refl, λ h. refl)
    of_highest (some profile) = (
      λ h. inr (profile, refl, (against_iff given profile.schedules).0 h),
      λ h. elim h [
        | inl k ↦ ground arith
        | inr (q, same, below) ↦
            (against_iff given profile.schedules).1
              (subst (λ x. IsCompatible given x.schedules) (same_profile profile q same) below)
      ],
    )
