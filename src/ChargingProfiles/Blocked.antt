-- ===== src/ChargingProfiles/Blocked.antt =====
-- The query for conflicting profiles names no station.
use rexharge_citrineos_core.Prelude.{
  ◌≡◌, refl, ap, subst, ℕ, Option, none, some, Bool, true, false, List, [], ◌∷◌, ◌++◌, arith,
  Bool-cases, inl, inr, ◌==◌, ◌&&◌,
}
use rexharge_citrineos_core.Prelude.Int.{ℤ, pos, negsuc}
use rexharge_citrineos_core.ChargingProfiles.{
  Purpose, tx_default_profile, charging_station_max_profile, tx_profile,
  charging_station_external_constraints, Profile, Step, go, refused, failed, eq_purpose,
}
use rexharge_citrineos_core.ChargingProfiles.Validation.{all_of}
use rexharge_citrineos_core.ChargingProfiles.Store.{Row, filter}
use rexharge_citrineos_core.ChargingProfiles.Setting.{
  State, Station, ends_before, conflicts_at_evse, set_charging_profile, eq_int,
}
use rexharge_citrineos_core.ChargingProfiles.Admissible.{
  Outcome, with_schedules, PurposeFits, set_charging_profile-Outcome,
}

and_both : (a b : Bool) → a && b ≡ true → (a ≡ true) × (b ≡ true)
and_both true true h = (refl, refl)
and_both true false h = cc
and_both false b h = cc

module _ (p q : Row → Bool) where
  all_of-filter :
      (front : List Row) (r : Row) (back : List Row)
      → all_of p (filter q (front ++ r ∷ back)) ≡ true
      → q r ≡ true
      → p r ≡ true
  unfolding all_of filter
  all_of-filter [] r back h k = (and_both (p r) _ (rw k at h)).0
  all_of-filter (x ∷ front) r back h k = elim (Bool-cases (q x)) [
    | inl e ↦ all_of-filter front r back (and_both (p x) _ (rw e at h)).1 k
    | inr e ↦ all_of-filter front r back (rw e at h) k
  ]

-- A row that stands in the way of a profile for the EVSE of a number.
abbrev pub IsInTheWay : ℕ → Profile → ℤ → Row → Type 0
IsInTheWay tenant p e r =
    (r.tenant ≡ tenant)
    × (r.stack_level ≡ p.stack_level)
    × (r.purpose ≡ p.purpose)
    × (r.evse_id ≡ some e)
    × (r.is_active ≡ true)
    × (r.valid_to ≡ none)

eq_int_refl : (a : ℤ) → eq_int a a ≡ true
eq_int_refl (pos n) = ground arith
eq_int_refl (negsuc n) = ground arith

eq_purpose_refl : (a : Purpose) → eq_purpose a a ≡ true
eq_purpose_refl charging_station_external_constraints = refl
eq_purpose_refl charging_station_max_profile = refl
eq_purpose_refl tx_default_profile = refl
eq_purpose_refl tx_profile = refl

eq_refl_ℕ : (a : ℕ) → (a == a) ≡ true
eq_refl_ℕ a = ground arith

in_the_way-conflicts :
    (tenant : ℕ) (p : Profile) (e : ℤ) (r : Row)
    → IsInTheWay tenant p e r
    → conflicts_at_evse tenant p e r ≡ true
in_the_way-conflicts tenant p e r (a, b, c, d, f, g) =
    simp (a, b, c, d, f, eq_int_refl, eq_purpose_refl, eq_refl_ℕ)

never_before : (end : Option ℕ) (r : Row) → r.valid_to ≡ none → ends_before end r ≡ false
never_before none r h = refl
never_before (some end) r h = rw h

module _ (station : Station) (send_call : ℤ → Profile → Bool) (e : ℤ) (r : Profile) (state : State)
    (front back : List Row) (row : Row) where
  blocked :
      state.tables.profiles ≡ front ++ row ∷ back
      → r.purpose ≡ tx_default_profile
      → IsInTheWay station.tenant r e row
      → (result : Step Bool × State) → Outcome station e r state result
      → result.1.calls ≡ state.calls
  blocked there default way (refused s, state') h = ap (λ x. x.calls) h
  blocked there default way (failed x, state') h = h
  blocked there default way (go b, state') (schedules, admissible, _, _) = absurd (
      let free : PurposeFits station e (with_schedules r schedules) state.tables
          tx_default_profile =
        subst (PurposeFits station e (with_schedules r schedules) state.tables) default
          admissible.purpose_fits in
      let ended =
        all_of-filter (ends_before r.valid_to) (conflicts_at_evse station.tenant r e) front row back
          (rw there at free) (in_the_way-conflicts station.tenant r e row way) in
      cc (ended, never_before r.valid_to row way.5))

  -- No call is sent for a default profile as long as an active profile of the tenant has its
  -- stack level, its purpose and its EVSE number, and no end: whichever station that profile is of.
  pub set_charging_profile_blocked :
      state.tables.profiles ≡ front ++ row ∷ back
      → r.purpose ≡ tx_default_profile
      → IsInTheWay station.tenant r e row
      → (set_charging_profile station send_call e r state).1.calls ≡ state.calls
  set_charging_profile_blocked there default way =
      blocked there default way _ (set_charging_profile-Outcome station send_call e r state)
