-- ===== src/ChargingProfiles/Clearing.antt =====
-- Which requests to clear profiles are sent on.
use rexharge_citrineos_core.Prelude.{
  ◌≡◌, refl, ℕ, zero, suc, Option, none, some, false, ◌↔◌, ◌⊎◌, ◌≢◌, inl, inr, arith, Bool-cases,
}
use rexharge_citrineos_core.ChargingProfiles.{
  Purpose, charging_station_external_constraints, charging_station_max_profile, tx_default_profile,
  tx_profile,
}
use rexharge_citrineos_core.ChargingProfiles.Requests.{
  Criteria, ClearRequest, nothing_in, names_nothing, is_external, clear_with,
  clear_charging_profile,
}

-- A purpose, a positive stack level or a positive EVSE.
abbrev pub Named : Option Purpose → Option ℕ → Option ℕ → Type 0
Named purpose level evse =
    ((p : Purpose) × (purpose ≡ some p))
    ⊎ ((n : ℕ) × (level ≡ some (suc n)))
    ⊎ ((n : ℕ) × (evse ≡ some (suc n)))

-- What a request to clear names: a profile by a positive number and nothing else, or, without such a
-- number, something but the external constraints.
abbrev pub NamesProfiles : Option ℕ → Option Criteria → Type 0
NamesProfiles (some (suc id)) none = Unit
NamesProfiles (some (suc id)) (some c) = ⊥
NamesProfiles (some zero) none = ⊥
NamesProfiles none none = ⊥
NamesProfiles (some zero) (some c) =
    (c.purpose ≢ some charging_station_external_constraints)
    × Named c.purpose c.stack_level c.evse_id
NamesProfiles none (some c) =
    (c.purpose ≢ some charging_station_external_constraints)
    × Named c.purpose c.stack_level c.evse_id

nothing_in-Named : (p : Option Purpose) (l e : Option ℕ) → (nothing_in p l e ≡ false) ↔ Named p l e
nothing_in-Named (some p) l e = (λ h. inl (p, refl), λ h. refl)
nothing_in-Named none (some (suc n)) e = (λ h. inr (inl (n, refl)), λ h. refl)
nothing_in-Named none none (some (suc n)) = (λ h. inr (inr (n, refl)), λ h. refl)
nothing_in-Named none (some zero) (some (suc n)) = (λ h. inr (inr (n, refl)), λ h. refl)
nothing_in-Named none none none = (λ h. cc, λ h. ground arith)
nothing_in-Named none none (some zero) = (λ h. cc, λ h. ground arith)
nothing_in-Named none (some zero) none = (λ h. cc, λ h. ground arith)
nothing_in-Named none (some zero) (some zero) = (λ h. cc, λ h. ground arith)

external_iff :
    (o : Option Purpose)
    → (is_external o ≡ false) ↔ (o ≢ some charging_station_external_constraints)
external_iff none = (λ h k. cc, λ h. refl)
external_iff (some charging_station_external_constraints) = (λ h k. cc, λ h. absurd (h refl))
external_iff (some charging_station_max_profile) = (λ h k. cc, λ h. refl)
external_iff (some tx_default_profile) = (λ h k. cc, λ h. refl)
external_iff (some tx_profile) = (λ h k. cc, λ h. refl)

criteria_iff :
    (c : Criteria)
    → (clear_with none (some c) ≡ none) ↔ (
        (c.purpose ≢ some charging_station_external_constraints)
        × Named c.purpose c.stack_level c.evse_id)
unfolding clear_with
criteria_iff c = elim (Bool-cases (names_nothing c)) [
  | inl h ↦ rw h (λ k. cc, λ k. cc (h, (nothing_in-Named c.purpose c.stack_level c.evse_id).1 k.1))
  | inr h ↦ elim (Bool-cases (is_external c.purpose)) [
    | inl x ↦ rw (h, x) (λ k. cc, λ k. cc (x, (external_iff c.purpose).1 k.0))
    | inr x ↦
        rw (h, x)
          (
            λ k. (
              (external_iff c.purpose).0 x,
              (nothing_in-Named c.purpose c.stack_level c.evse_id).0 h,
            ),
            λ k. refl,
          )
  ]
]

clear_iff :
    (id : Option ℕ) (criteria : Option Criteria)
    → (clear_charging_profile (record { profile_id = id; criteria = criteria }) ≡ none)
      ↔ NamesProfiles id criteria
unfolding clear_charging_profile
clear_iff none (some c) = criteria_iff c
clear_iff (some zero) (some c) = criteria_iff c
clear_iff none none = (λ h. unfold clear_with in cc h, λ h. absurd h)
clear_iff (some zero) none = (λ h. unfold clear_with in cc h, λ h. absurd h)
clear_iff (some (suc n)) none = (λ h. tt, λ h. unfold clear_with in refl)
clear_iff (some (suc n)) (some c) = (λ h. unfold clear_with in cc h, λ h. absurd h)

-- A request to clear is sent to the station exactly if it names a profile by a positive number, and
-- gives no criteria, or gives no such number, and criteria with a purpose, a positive stack level or a
-- positive EVSE, where the purpose is not that of the external constraints. A stack level of 0 and
-- the EVSE 0 name nothing.
pub clear_charging_profile_iff :
    (r : ClearRequest) → (clear_charging_profile r ≡ none) ↔ NamesProfiles r.profile_id r.criteria
clear_charging_profile_iff r = clear_iff r.profile_id r.criteria
