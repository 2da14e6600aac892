-- ===== src/ChargingProfiles/Admissible.antt =====
-- What a profile satisfies that is sent, and what is left of the state.
use rexharge_citrineos_core.Prelude.{
  ◌≡◌, ◌≢◌, refl, sym, ap, ◌∙◌, subst, ℕ, some, Bool, true, false, not, List, [], ◌∷◌, length,
  is_some, ◌==◌, leb, arith, All, ◌&&◌, ◌||◌,
}
use rexharge_citrineos_core.Prelude.Int.{ℤ, is_positive, is_negative, is_zero}
use rexharge_citrineos_core.Rpc.Message.{ok, throw}
use rexharge_citrineos_core.ChargingProfiles.{
  Purpose, charging_station_external_constraints, charging_station_max_profile, tx_default_profile,
  tx_profile, Kind, relative, Period, Schedule, Profile, eq_purpose, Step, ◌>>◌, go, refused,
  failed, awaited, >>=-eq-go, expect-eq-go, expect_some-eq-go, expect_holds,
}
use rexharge_citrineos_core.ChargingProfiles.Validation.{
  Directory, truthy, all_of, validate_charging_profile_type, received_charging_needs,
  validate_schedules,
}
use rexharge_citrineos_core.ChargingProfiles.Store.{Tables, Written, filter, create_or_update}
use rexharge_citrineos_core.ChargingProfiles.Periods.{
  IsSorted, sort_periods-IsSorted, sort_periods_at_zero,
}
use rexharge_citrineos_core.ChargingProfiles.Setting.{
  State, Station, starts_later, is_over, is_relative, ends_before, conflicts_in_transaction,
  conflicts_at_evse, check_tx_profile, check_other_profile, check_purpose, starts_at_zero,
  check_first, start_fits, unit_fits, phase_fits, sort_periods, check_schedules, check_validated,
  check_profile, transaction_key, place_of, send_stored, store_and_send, set_charging_profile,
}

-- A profile that goes with another purpose than the maximum of a station, or with the EVSE 0.
not_unless : (z : Bool) → not (true && not z) ≡ true → z ≡ true
not_unless true h = refl
not_unless false h = cc

abbrev pub with_schedules : Profile → List Schedule → Profile
with_schedules p schedules = record p { schedules = schedules }

abbrev pub IsValidated : ℤ → Profile → Type 0
IsValidated e r =
    (is_negative r.stack_level ≡ false)
    × (r.purpose ≡ charging_station_max_profile → is_zero e ≡ true)

go_injective {ℓ} : {A : Type ℓ} {a b : A} → go a ≡ go b → a ≡ b
go_injective {a} h = ap (λ m. elim m [ go x ↦ x | refused s ↦ a | failed e ↦ a ]) h

validate_lem :
    (d : Directory) (e : ℤ) (r p : Profile)
    → validate_charging_profile_type d e r ≡ go p
    → IsValidated e r × (schedules : List Schedule) × (p ≡ with_schedules r schedules)
unfolding validate_charging_profile_type
validate_lem d e r p h =
    let (level, h1) = expect-eq-go (not (is_negative r.stack_level)) _ _ h in
    let (evse, h2) =
      expect-eq-go (not (eq_purpose r.purpose charging_station_max_profile && not (is_zero e))) _ _
        h1 in
    let (named, h3) =
      expect-eq-go (eq_purpose r.purpose tx_profile || not (is_some (truthy r.transaction_id))) _ _
        h2 in
    let (needs, _, h4) = >>=-eq-go (received_charging_needs d e (truthy r.transaction_id)) _ h3 in
    let (schedules, _, h5) =
      >>=-eq-go (validate_schedules d.periods_per_schedule needs r.schedules) _ h4 in
    ((ground arith, λ m. not_unless (is_zero e) (rw m at evse)), schedules, sym (go_injective h5))

-- The conditions of one schedule.
abbrev pub ScheduleFits : Directory → Kind → Schedule → Type 0
ScheduleFits d kind s =
    IsSorted s.periods
    × (starts_at_zero s.periods ≡ true)
    × (start_fits kind s.start_schedule ≡ true)
    × (unit_fits d.rate_units s.charging_rate_unit ≡ true)
    × (all_of (phase_fits d) s.periods ≡ true)

check_first-eq-go {ℓ} :
    {A : Type ℓ} (ps : List Period) (k : Step A) {x : A}
    → (check_first ps >> k) ≡ go x
    → (starts_at_zero ps ≡ true) × (k ≡ go x)
unfolding check_first
check_first-eq-go [] k h = cc
check_first-eq-go (p ∷ ps) k h = expect-eq-go (p.start_period == 0) _ k h

check_schedules_lem :
    (d : Directory) (kind : Kind) (given l : List Schedule)
    → check_schedules d kind given ≡ go l
    → All (ScheduleFits d kind) l
unfolding check_schedules
check_schedules_lem d kind [] l h = subst (All (ScheduleFits d kind)) (go_injective h) tt
check_schedules_lem d kind (s ∷ ss) l h =
    let (zero_first, h1) = check_first-eq-go s.periods _ h in
    let (start, h2) = expect-eq-go (start_fits kind s.start_schedule) _ _ h1 in
    let (unit, h3) = expect-eq-go (unit_fits d.rate_units s.charging_rate_unit) _ _ h2 in
    let (phases, h4) = expect-eq-go (all_of (phase_fits d) (sort_periods s.periods)) _ _ h3 in
    let (rest, e, h5) = >>=-eq-go (check_schedules d kind ss) _ h4 in
    subst (All (ScheduleFits d kind)) (go_injective h5) (
      (
        sort_periods-IsSorted s.periods,
        sort_periods_at_zero s.periods zero_first,
        start,
        unit,
        phases,
      ),
      check_schedules_lem d kind ss rest e,
    )

abbrev pub PurposeFits : Station → ℤ → Profile → Tables → Purpose → Type 0
PurposeFits station e p t tx_profile =
    (transaction : ℕ) × (transaction_key station.directory (truthy p.transaction_id)
      ≡ some transaction)
    × (is_positive e ≡ true)
    × (filter (conflicts_in_transaction station.tenant p.stack_level transaction) t.profiles ≡ [])
PurposeFits station e p t charging_station_external_constraints = ⊥
PurposeFits station e p t charging_station_max_profile =
    (p.kind ≢ relative)
    × (all_of (ends_before p.valid_to) (filter (conflicts_at_evse station.tenant p e) t.profiles)
        ≡ true)
PurposeFits station e p t tx_default_profile =
    all_of (ends_before p.valid_to) (filter (conflicts_at_evse station.tenant p e) t.profiles)
    ≡ true

length_zero {ℓ} : {A : Type ℓ} (l : List A) → (length l == 0) ≡ true → l ≡ []
length_zero [] h = refl
length_zero (x ∷ l) h = absurd (ground arith)

check_tx_lem :
    (station : Station) (e : ℤ) (p : Profile) (t : Tables) {u : Unit {0}}
    → check_tx_profile station e p t ≡ go u
    → PurposeFits station e p t tx_profile
unfolding check_tx_profile
check_tx_lem station e p t h =
    let (id, named, h1) = expect_some-eq-go (truthy p.transaction_id) _ _ h in
    let (transaction, known, h2) = expect_some-eq-go (station.directory.transaction id) _ _ h1 in
    let (positive, h3) = expect-eq-go (is_positive e) _ _ h2 in
    let (evse, _, h4) = expect_some-eq-go (station.directory.evse e) _ _ h3 in
    let (needs, _, h5) = >>=-eq-go (awaited (station.directory.needs evse transaction)) _ h4 in
    let (several, h6) = expect-eq-go (is_some needs || leb (length p.schedules) 1) _ _ h5 in
    (transaction, rw named known, positive, length_zero _ (expect_holds _ _ h6))

check_other_lem :
    (station : Station) (e : ℤ) (p : Profile) (t : Tables) {u : Unit {0}}
    → check_other_profile station e p t ≡ go u
    → (p.purpose ≡ charging_station_max_profile → p.kind ≢ relative)
      × PurposeFits station e p t tx_default_profile
unfolding check_other_profile
check_other_lem station e p t h =
    let (kind, h1) =
      expect-eq-go (not (eq_purpose p.purpose charging_station_max_profile && is_relative p.kind)) _
        _ h in
    let free = expect_holds _ _ h1 in (λ m k. cc (rw (m, k) at kind), free)

check_purpose_lem :
    (station : Station) (e : ℤ) (p : Profile) (t : Tables) (purpose : Purpose) {u : Unit {0}}
    → purpose ≡ p.purpose
    → check_purpose station e p t purpose ≡ go u
    → PurposeFits station e p t purpose
unfolding check_purpose
check_purpose_lem station e p t tx_profile same h = check_tx_lem station e p t h
check_purpose_lem station e p t charging_station_external_constraints same h = cc
check_purpose_lem station e p t charging_station_max_profile same h =
    let (kind, free) = check_other_lem station e p t h in (kind (sym same), free)
check_purpose_lem station e p t tx_default_profile same h = (check_other_lem station e p t h).1

-- A profile that may be sent to a station with these tables.
pub record IsAdmissible (station : Station) (e : ℤ) (p : Profile) (t : Tables) : Type 0 where
  pub level : is_negative p.stack_level ≡ false
  pub whole_station : p.purpose ≡ charging_station_max_profile → is_zero e ≡ true
  pub begun : starts_later p.valid_from station.now ≡ false
  pub lasting : is_over p.valid_to station.now ≡ false
  pub purpose_fits : PurposeFits station e p t p.purpose
  pub schedules_fit : All (ScheduleFits station.directory p.kind) p.schedules

check_validated_lem :
    (station : Station) (e : ℤ) (q p : Profile) (t : Tables)
    → IsValidated e q
    → check_validated station e q t ≡ go p
    → (schedules : List Schedule) × (with_schedules q schedules ≡ p)
      × IsAdmissible station e (with_schedules q schedules) t
unfolding check_validated
check_validated_lem station e q p t (level, whole) h =
    let (begun, h1) = expect-eq-go (not (starts_later q.valid_from station.now)) _ _ h in
    let (lasting, h2) = expect-eq-go (not (is_over q.valid_to station.now)) _ _ h1 in
    let (u, fits, h3) = >>=-eq-go (check_purpose station e q t q.purpose) _ h2 in
    let (schedules, sorted, h4) =
      >>=-eq-go (check_schedules station.directory q.kind q.schedules) _ h3 in
    (
      schedules,
      go_injective h4,
      record {
        level = level;
        whole_station = whole;
        begun = ground arith;
        lasting = ground arith;
        purpose_fits = check_purpose_lem station e q t q.purpose refl fits;
        schedules_fit = check_schedules_lem station.directory q.kind q.schedules schedules sorted;
      },
    )

check_profile_lem :
    (station : Station) (e : ℤ) (r p : Profile) (t : Tables)
    → check_profile station e r t ≡ go p
    → (schedules : List Schedule) × (with_schedules r schedules ≡ p)
      × IsAdmissible station e (with_schedules r schedules) t
unfolding check_profile
check_profile_lem station e r p t h =
    let (q, valid, h1) = >>=-eq-go (validate_charging_profile_type station.directory e r) _ h in
    let (a, given, same) = validate_lem station.directory e r q valid in
    check_validated_lem station e (with_schedules r given) p t a
      (ap (λ x. check_validated station e x t) (sym same) ∙ h1)

-- How a request to set a profile ends.
abbrev pub Outcome : Station → ℤ → Profile → State → Step Bool × State → Type 0
Outcome station e r state (go sent, state') =
    (schedules : List Schedule) × IsAdmissible station e (with_schedules r schedules) state.tables
    × (create_or_update (place_of station e) (with_schedules r schedules)
          (transaction_key station.directory (truthy r.transaction_id)) state.tables
        ≡ (ok tt, state'.tables))
    × (state'.calls ≡ (e, with_schedules r schedules) ∷ state.calls)
Outcome station e r state (refused s, state') = state' ≡ state
Outcome station e r state (failed x, state') = state'.calls ≡ state.calls

send_stored-Outcome :
    (station : Station) (send_call : ℤ → Profile → Bool) (e : ℤ) (r : Profile) (state : State)
    (schedules : List Schedule) (stored : Written)
    → IsAdmissible station e (with_schedules r schedules) state.tables
    → create_or_update
        (place_of station e)
        (with_schedules r schedules)
        (transaction_key station.directory (truthy r.transaction_id))
        state.tables
      ≡ stored
    → Outcome station e r state (send_stored send_call e (with_schedules r schedules) state stored)
unfolding send_stored
send_stored-Outcome station send_call e r state schedules (throw x, t) a h = refl
send_stored-Outcome station send_call e r state schedules (ok u, t) a h = (schedules, a, h, refl)

store_and_send-Outcome :
    (station : Station) (send_call : ℤ → Profile → Bool) (e : ℤ) (r : Profile) (state : State)
    (checked : Step Profile)
    → check_profile station e r state.tables ≡ checked
    → Outcome station e r state (store_and_send station send_call e checked state)
unfolding store_and_send
store_and_send-Outcome station send_call e r state (refused s) h = refl
store_and_send-Outcome station send_call e r state (failed x) h = refl
store_and_send-Outcome station send_call e r state (go p) h =
    let (schedules, same, admissible) = check_profile_lem station e r p state.tables h in
    subst (λ q. Outcome station e r state (store_and_send station send_call e (go q) state)) same
      (send_stored-Outcome station send_call e r state schedules _ admissible refl)

-- A request to set a profile that is sent on is the given one but for its schedules, is admissible, has
-- been stored just before, and is the only new call. One that is refused leaves everything as it was,
-- and one that fails, as where a row cannot be written, sends no call.
pub set_charging_profile-Outcome :
    (station : Station) (send_call : ℤ → Profile → Bool) (e : ℤ) (r : Profile) (state : State)
    → Outcome station e r state (set_charging_profile station send_call e r state)
unfolding set_charging_profile
set_charging_profile-Outcome station send_call e r state =
    store_and_send-Outcome station send_call e r state _ refl
