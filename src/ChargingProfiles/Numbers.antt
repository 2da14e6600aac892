-- ===== src/ChargingProfiles/Numbers.antt =====
-- The numbers of a profile that the CSMS generates are new.
use rexharge_citrineos_core.Prelude.{
  ◌≡◌, ◌≢◌, refl, ℕ, suc, ◌≤◌, ◌<◌, String, some, List, [], ◌∷◌, All, arith, Bool-cases, inl, inr,
  str_eq, eq_iff,
}
use rexharge_citrineos_core.ChargingProfiles.{Schedule}
use rexharge_citrineos_core.ChargingProfiles.Store.{Row, ScheduleRow, Tables}
use rexharge_citrineos_core.ChargingProfiles.Handlers.{
  Active, greater, greatest, next_value, ids_at, schedule_ids_at, generated_profile,
  next_charging_profile_id, next_charging_schedule_id,
}

All-below : (a b : ℕ) (ns : List ℕ) → a ≤ b → All (λ n. n < a) ns → All (λ n. n < b) ns
All-below a b [] h k = tt
All-below a b (n ∷ ns) h k = (omega arith, All-below a b ns h k.1)

greater-le : (n m : ℕ) → (n ≤ greater n (some m)) × (m ≤ greater n (some m))
greater-le n m = ground arith

next-above : (start : ℕ) (ns : List ℕ) → All (λ n. n < next_value start (greatest ns)) ns
unfolding greatest
next-above start [] = tt
next-above start (n ∷ []) = (omega arith, tt)
next-above start (n ∷ m ∷ ns) =
    let g = greater m (greatest ns) in
    let (le, le') = greater-le n g in
    (
      omega arith,
      All-below (suc g) (suc (greater n (some g))) (m ∷ ns) (omega arith)
          (next-above start (m ∷ ns)),
    )

-- Profiles of a station with another number than this.
abbrev pub LacksProfile : String → ℕ → List Row → Type 0
LacksProfile station id = All (λ r. r.station ≡ station → r.id ≢ id)

abbrev pub LacksSchedule : String → ℕ → List ScheduleRow → Type 0
LacksSchedule station id = All (λ r. r.station ≡ station → r.schedule.id ≢ id)

ids-Lacks :
    (station : String) (id : ℕ) (rows : List Row)
    → All (λ n. n < id) (ids_at station rows)
    → LacksProfile station id rows
unfolding ids_at
ids-Lacks station id [] h = tt
ids-Lacks station id (r ∷ rows) h = elim (Bool-cases (str_eq r.station station)) [
  | inl e ↦
      let k : (r.id < id) × All (λ n. n < id) (ids_at station rows) = rw e at h in
      (λ same equal. absurd (omega arith), ids-Lacks station id rows k.1)
  | inr e ↦
      (λ same. cc (e, (eq_iff r.station station).1 same), ids-Lacks station id rows (rw e at h))
]

schedule_ids-Lacks :
    (station : String) (id : ℕ) (rows : List ScheduleRow)
    → All (λ n. n < id) (schedule_ids_at station rows)
    → LacksSchedule station id rows
unfolding schedule_ids_at
schedule_ids-Lacks station id [] h = tt
schedule_ids-Lacks station id (r ∷ rows) h = elim (Bool-cases (str_eq r.station station)) [
  | inl e ↦
      let k : (r.schedule.id < id) × All (λ n. n < id) (schedule_ids_at station rows) = rw e at h in
      (λ same equal. absurd (omega arith), schedule_ids-Lacks station id rows k.1)
  | inr e ↦ (
    λ same. cc (e, (eq_iff r.station station).1 same),
    schedule_ids-Lacks station id rows (rw e at h),
  )
]

-- The number of a profile that is made from a station's schedule is that of none of the station's
-- stored profiles; and the profile has one schedule, whose number is that of none of the station's
-- stored schedules.
pub generated_profile-Lacks :
    (station : String) (active : Active) (s : Schedule) (t : Tables)
    → LacksProfile station (generated_profile station active s t).id t.profiles
      × (x : Schedule) × ((generated_profile station active s t).schedules ≡ x ∷ [])
      × LacksSchedule station x.id t.schedules
unfolding generated_profile next_charging_profile_id next_charging_schedule_id
generated_profile-Lacks station active s t = (
  ids-Lacks station _ t.profiles (next-above 1 (ids_at station t.profiles)),
  record s { id = next_charging_schedule_id station t },
  refl,
  schedule_ids-Lacks station _ t.schedules (next-above 1 (schedule_ids_at station t.schedules)),
)
