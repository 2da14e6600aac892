-- ===== src/Energy.antt =====
-- The energy of a transaction from its readings: 00_Base/src/util/MeterValueUtils.ts. Its numbers are
-- a parameter; a multiplier is a difference of two natural numbers, and units are in capitals.
pub mod Sorting
pub mod Readings
mod Tests
use rexharge_citrineos_core.Prelude.{
  ℕ, zero, suc, ◌+◌, String, Option, none, some, Bool, true, false, ◌&&◌, ◌||◌, ◌==◌, List, [], ◌∷◌,
  leb, ltb, length, includes, if◌then◌else◌,
}
use rexharge_citrineos_core.Prelude.Text.{concat}
use rexharge_citrineos_core.Rpc.Message.{Result, ok, throw, plain}

-- ReadingContextEnumType, the valid contexts and the others by their name
pub data Context : Type 0 where
  transaction_begin sample_periodic transaction_end : Context
  other : String → Context

-- MeasurandEnumType, those that are read and the others by their name
pub data Measurand : Type 0 where
  register interval net : Measurand
  other : String → Measurand

-- PhaseEnumType
pub data Phase : Type 0 where
  l1 l2 l3 neutral l1_n l2_n l3_n l1_l2 l2_l3 l3_l1 : Phase

-- The numbers: their arithmetic, and `n * 10 ** (up - down)`.
pub record Numbers (N : Type 0) : Type 0 where
  pub nought : N
  pub plus : N → N → N
  pub minus : N → N → N
  pub scaled : N → ℕ → ℕ → N

pub record SampledValue (N : Type 0) : Type 0 where
  pub value : N
  pub context : Option Context
  pub measurand : Option Measurand
  pub phase : Option Phase
  pub unit : Option String
  pub multiplier : Option (ℕ × ℕ)

-- MeterValueType, whose list of samples is never empty
pub record MeterValue (N : Type 0) : Type 0 where
  pub timestamp : ℕ
  pub first : SampledValue N
  pub others : List (SampledValue N)

-- what is summed up
pub data Kind : Type 0 where
  register_kind interval_kind net_kind : Kind

abbrev pub is_valid_context : Option Context → Bool
is_valid_context none = true
is_valid_context (some transaction_begin) = true
is_valid_context (some sample_periodic) = true
is_valid_context (some transaction_end) = true
is_valid_context (some (Context.other s)) = false

-- sv.measurand === measurand
abbrev pub measures : Kind → Option Measurand → Bool
measures register_kind (some register) = true
measures interval_kind (some interval) = true
measures net_kind (some net) = true
measures kind m = false

-- the same, where a missing measurand is the register
abbrev pub measures_by_default : Kind → Option Measurand → Bool
measures_by_default register_kind none = true
measures_by_default kind m = measures kind m

abbrev pub is_single_phase : Option Phase → Bool
is_single_phase (some l1) = true
is_single_phase (some l2) = true
is_single_phase (some l3) = true
is_single_phase p = false

abbrev pub is_phase_to_neutral : Option Phase → Bool
is_phase_to_neutral (some l1_n) = true
is_phase_to_neutral (some l2_n) = true
is_phase_to_neutral (some l3_n) = true
is_phase_to_neutral p = false

abbrev pub has_no_phase : Option Phase → Bool
has_no_phase none = true
has_no_phase (some p) = false

abbrev pub kilo_units : List String
kilo_units = "KWH" ∷ "KVARH" ∷ "KVAH" ∷ []

abbrev pub plain_units : List String
plain_units = "WH" ∷ "VARH" ∷ "VAH" ∷ []

module _ {A : Type 0} where
  abbrev pub filter : (A → Bool) → List A → List A
  filter p [] = []
  filter p (x ∷ xs) = let rest = filter p xs in if p x then x ∷ rest else rest

  abbrev pub find : (A → Bool) → List A → Option A
  find p [] = none
  find p (x ∷ xs) = let rest = find p xs in if p x then some x else rest

module _ {N : Type 0} (numbers : Numbers N) where
  abbrev pub power_of : Option (ℕ × ℕ) → ℕ × ℕ
  power_of none = (0, 0)
  power_of (some p) = p

  -- the switch on the unit
  scale_by : N → ℕ × ℕ → Option String → Result N
  scale_by n (up, down) none = ok (numbers.scaled n up (down + 3))
  scale_by n (up, down) (some unit) =
      if includes kilo_units unit
      then ok (numbers.scaled n up down)
      else if includes plain_units unit
      then ok (numbers.scaled n up (down + 3))
      else throw (plain (concat "Unknown unit for energy measurement: " unit))

  unfoldable pub normalize_to_kwh : SampledValue N → Result N
  unfolding scale_by
  normalize_to_kwh v = scale_by v.value (power_of v.multiplier) v.unit

  -- the sum of the samples that are given, from the left
  unfoldable pub sum_from : N → List (SampledValue N) → Result N
  unfolding normalize_to_kwh
  sum_from sum [] = ok sum
  sum_from sum (v ∷ vs) = elim (normalize_to_kwh v) [
    | ok n ↦ sum_from (numbers.plus sum n) vs
    | throw e ↦ throw e
  ]

  some_kwh : Result N → Result (Option N)
  some_kwh (ok n) = ok (some n)
  some_kwh (throw e) = throw e

  sum_neutral : List (SampledValue N) → Result (Option N)
  unfolding some_kwh sum_from
  sum_neutral [] = ok none
  sum_neutral (v ∷ vs) = some_kwh (sum_from numbers.nought (v ∷ vs))

  sum_single : List (SampledValue N) → List (SampledValue N) → Result (Option N)
  unfolding sum_neutral some_kwh sum_from
  sum_single [] to_neutral = sum_neutral to_neutral
  sum_single (v ∷ vs) to_neutral = some_kwh (sum_from numbers.nought (v ∷ vs))

  unfoldable pub sum_phased_values : Kind → List (SampledValue N) → Result (Option N)
  unfolding sum_single
  sum_phased_values kind vs =
      sum_single (filter (λ v. measures kind v.measurand && is_single_phase v.phase) vs)
        (filter (λ v. measures kind v.measurand && is_phase_to_neutral v.phase) vs)

  -- findMeasurandValue for values without a phase
  unfoldable pub find_measurand_value : Kind → List (SampledValue N) → Option (SampledValue N)
  find_measurand_value kind vs =
      find (λ v. measures_by_default kind v.measurand && has_no_phase v.phase) vs

  read_found : Kind → List (SampledValue N) → Option (SampledValue N) → Result (Option N)
  unfolding some_kwh sum_phased_values normalize_to_kwh
  read_found kind vs (some v) = some_kwh (normalize_to_kwh v)
  read_found net_kind vs none = ok none
  read_found register_kind vs none = sum_phased_values register_kind vs
  read_found interval_kind vs none = sum_phased_values interval_kind vs

  -- what a reading has of a kind: a value without a phase, or the sum of the phases
  unfoldable pub reading_of : Kind → MeterValue N → Result (Option N)
  unfolding read_found find_measurand_value
  reading_of kind mv =
      read_found kind (mv.first ∷ mv.others) (find_measurand_value kind (mv.first ∷ mv.others))

  -- valuesMap.set
  unfoldable pub set_value : ℕ → N → List (ℕ × N) → List (ℕ × N)
  set_value k n [] = (k, n) ∷ []
  set_value k n ((j, m) ∷ entries) =
      let rest = set_value k n entries in if j == k then (j, n) ∷ entries else (j, m) ∷ rest

  -- getRegisterValuesMap, getIntervalValuesMap and getNetValuesMap, from the entries that there are
  unfoldable pub values_map : Kind → List (MeterValue N) → List (ℕ × N) → Result (List (ℕ × N))
  unfolding reading_of set_value
  values_map kind [] entries = ok entries
  values_map kind (mv ∷ mvs) entries = elim (reading_of kind mv) [
    | throw e ↦ throw e
    | ok o ↦
        values_map kind mvs (elim o [ none ↦ entries | some n ↦ set_value mv.timestamp n entries ])
  ]

  -- sort((a, b) => a[0] - b[0])
  unfoldable pub insert_entry : ℕ × N → List (ℕ × N) → List (ℕ × N)
  insert_entry e [] = e ∷ []
  insert_entry e (f ∷ fs) =
      let rest = insert_entry e fs in if leb e.0 f.0 then e ∷ f ∷ fs else f ∷ rest

  unfoldable pub sort_entries : List (ℕ × N) → List (ℕ × N)
  unfolding insert_entry
  sort_entries [] = []
  sort_entries (e ∷ es) = insert_entry e (sort_entries es)

  abbrev pub last_of : ℕ × N → List (ℕ × N) → ℕ × N
  last_of e [] = e
  last_of e (f ∷ fs) = last_of f fs

  unfoldable pub calculate_total_kwh : List (ℕ × N) → N
  calculate_total_kwh [] = numbers.nought
  calculate_total_kwh (e ∷ []) = numbers.nought
  calculate_total_kwh (e ∷ f ∷ fs) = numbers.minus (last_of f fs).1 e.1

  abbrev pub sum_entries : N → List (ℕ × N) → N
  sum_entries sum [] = sum
  sum_entries sum (e ∷ es) = sum_entries (numbers.plus sum e.1) es

  -- the value of the latest entry; of several with one key there is only one
  abbrev pub latest : ℕ × N → List (ℕ × N) → ℕ × N
  latest e [] = e
  latest e (f ∷ fs) = latest (if ltb e.0 f.0 then f else e) fs

  from_net : Result (List (ℕ × N)) → Result N
  from_net (throw e) = throw e
  from_net (ok []) = ok numbers.nought
  from_net (ok (e ∷ es)) = ok (latest e es).1

  from_interval : List (MeterValue N) → Result (List (ℕ × N)) → Result N
  unfolding from_net sort_entries values_map
  from_interval mvs (throw e) = throw e
  from_interval mvs (ok []) = from_net (values_map net_kind mvs [])
  from_interval mvs (ok (e ∷ es)) = ok (sum_entries numbers.nought (sort_entries (e ∷ es)))

  unfoldable pub from_register : List (MeterValue N) → Result (List (ℕ × N)) → Result N
  unfolding from_interval sort_entries values_map calculate_total_kwh
  from_register mvs (throw e) = throw e
  from_register mvs (ok []) = from_interval mvs (values_map interval_kind mvs [])
  from_register mvs (ok (e ∷ es)) = ok (calculate_total_kwh (sort_entries (e ∷ es)))

  -- getTotalKwh; without valid readings all three maps are empty
  unfoldable pub get_total_kwh : List (MeterValue N) → Result N
  unfolding from_register
  get_total_kwh mvs =
      let valid = filter (λ mv. is_valid_context mv.first.context) mvs in
      from_register valid (values_map register_kind valid [])
