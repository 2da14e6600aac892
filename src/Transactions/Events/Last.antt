-- ===== src/Transactions/Events/Last.antt =====
-- What is stored of a transaction after many events.
use rexharge_citrineos_core.Prelude.{
  ℕ, suc, String, ◌≡◌, ◌∙◌, refl, sym, ap, ap₂, Option, none, some, Bool, true, false, ◌&&◌, List,
  [], ◌∷◌, str_eq, eq_iff, arith, Bool-cases, inl, inr, if◌then◌else◌,
}
use rexharge_citrineos_core.Transactions.{Transaction, is_at, find_transaction}
use rexharge_citrineos_core.Transactions.Events.{
  EventRequest, IdToken, Tables, goes_on, update_transaction, create_transaction, save_event,
  authorize,
}

both_true : (a b : Bool) → (a && b) ≡ true → (a ≡ true) × (b ≡ true)
both_true true b h = (refl, h)
both_true false b h = ground arith

-- one event is for the key of another
abbrev pub same_key : String → String → String → String → Bool
same_key s r station id = str_eq s station && str_eq r id

found_key :
    (s r station id : String) (t : Transaction)
    → is_at s r t ≡ true
    → is_at station id t ≡ same_key s r station id
found_key s r station id t h =
    let (a, b) = both_true _ _ h in
    ap₂ (λ x y. str_eq x station && str_eq y id) ((eq_iff t.station s).0 a)
      ((eq_iff t.transaction_id r).0 b)

equal_key :
    (s r station id : String) (t : Transaction)
    → same_key s r station id ≡ true
    → is_at station id t ≡ is_at s r t
equal_key s r station id t h =
    let (a, b) = both_true _ _ h in
    sym (ap₂ (λ x y. is_at x y t) ((eq_iff s station).0 a) ((eq_iff r id).0 b))

if_twice :
    {A : Type 0} (b : Bool) (x y z : A)
    → (if b then x else y) ≡ (if b then x else if b then z else y)
if_twice true x y z = refl
if_twice false x y z = refl

-- whether a transaction is active, and its authorization, where it is stored
abbrev pub activity : Option Transaction → Option Bool
activity none = none
activity (some t) = some t.is_active

abbrev pub authorization_in : Option Transaction → Option ℕ
authorization_in none = none
authorization_in (some t) = t.authorization_id

module _ (tables : Tables) where
  -- what an event leaves of a transaction, which may be new
  abbrev pub saved : String → EventRequest → Option Transaction → Transaction
  saved s r none = create_transaction tables s r
  saved s r (some t) = update_transaction tables s r t

  -- An event changes the transaction of its station and transactionId, or adds it, and leaves the others.
  pub find_transaction-save_event :
      (s station id : String) (r : EventRequest) (ts : List Transaction)
      → find_transaction station id (save_event tables s r ts) ≡ (
          if same_key s r.transaction_id station id
          then some (saved s r (find_transaction s r.transaction_id ts))
          else find_transaction station id ts)
  unfolding save_event create_transaction update_transaction
  find_transaction-save_event s station id r [] = refl
  find_transaction-save_event s station id r (t ∷ ts) =
      elim (Bool-cases (is_at s r.transaction_id t)) [
        | inl h ↦
            rw (h, found_key s r.transaction_id station id t h)
              (if_twice (same_key s r.transaction_id station id)
                (some (update_transaction tables s r t)) (find_transaction station id ts) (some t))
        | inr h ↦ elim (Bool-cases (same_key s r.transaction_id station id)) [
          | inl k ↦
              rw
                (
                  h,
                  equal_key s r.transaction_id station id t k ∙ h,
                  find_transaction-save_event s station id r ts,
                  k,
                )
                refl
          | inr k ↦ rw (h, find_transaction-save_event s station id r ts, k) refl
        ]
      ]

  -- The events of all stations, one after another.
  abbrev pub run : List (String × EventRequest) → List Transaction → List Transaction
  run [] ts = ts
  run ((s, r) ∷ events) ts = run events (save_event tables s r ts)

  saved_activity :
      (s : String) (r : EventRequest) (o : Option Transaction)
      → (saved s r o).is_active ≡ goes_on r.event_type
  unfolding update_transaction create_transaction
  saved_activity s r none = refl
  saved_activity s r (some t) = refl

-- What the last event of a transaction says of its going on.
abbrev pub last_activity :
    String → String → List (String × EventRequest) → Option Bool → Option Bool
last_activity station id [] before = before
last_activity station id ((s, r) ∷ events) before =
    last_activity station id events
      (if same_key s r.transaction_id station id then some (goes_on r.event_type) else before)

module _ (tables : Tables) (station id : String) where
  step_activity :
      (s : String) (r : EventRequest) (ts : List Transaction)
      → activity (find_transaction station id (save_event tables s r ts)) ≡ (
          if same_key s r.transaction_id station id
          then some (goes_on r.event_type)
          else activity (find_transaction station id ts))
  step_activity s r ts = elim (Bool-cases (same_key s r.transaction_id station id)) [
    | inl k ↦
        rw (find_transaction-save_event tables s station id r ts, k)
          (ap some (saved_activity tables s r (find_transaction s r.transaction_id ts)))
    | inr k ↦ rw (find_transaction-save_event tables s station id r ts, k) refl
  ]

  -- After any sequence of events, of this and of other transactions, a transaction is active exactly if
  -- its last event was not Ended, in whatever order the events came.
  pub run-last_activity :
      (events : List (String × EventRequest)) (ts : List Transaction)
      → activity (find_transaction station id (run tables events ts))
        ≡ last_activity station id events (activity (find_transaction station id ts))
  run-last_activity [] ts = refl
  run-last_activity ((s, r) ∷ events) ts =
      run-last_activity events (save_event tables s r ts)
      ∙ ap (last_activity station id events) (step_activity s r ts)

  saved_authorization :
      (s : String) (r : EventRequest) (o : Option Transaction) (n : ℕ)
      → authorization_in o ≡ some (suc n)
      → (saved tables s r o).authorization_id ≡ some (suc n)
  unfolding update_transaction
  saved_authorization s r none n h = ground arith
  saved_authorization s r (some t) n h = rw h (stays r.id_token)
    where
      stays : (token : Option IdToken) → authorize tables s token (some (suc n)) ≡ some (suc n)
      stays none = refl
      stays (some token) = refl

  step_authorization :
      (s : String) (r : EventRequest) (ts : List Transaction) (n : ℕ)
      → authorization_in (find_transaction station id ts) ≡ some (suc n)
      → authorization_in (find_transaction station id (save_event tables s r ts)) ≡ some (suc n)
  step_authorization s r ts n h = elim (Bool-cases (same_key s r.transaction_id station id)) [
    | inl k ↦
        rw (find_transaction-save_event tables s station id r ts, k)
          (saved_authorization s r _ n (at_key k))
    | inr k ↦ rw (find_transaction-save_event tables s station id r ts, k) h
  ]
    where
      at_key :
          same_key s r.transaction_id station id ≡ true
          → authorization_in (find_transaction s r.transaction_id ts) ≡ some (suc n)
      at_key k =
          let (a, b) = both_true _ _ k in
          ap₂ (λ x y. authorization_in (find_transaction x y ts)) ((eq_iff s station).0 a)
            ((eq_iff r.transaction_id id).0 b)
          ∙ h

  -- No event moves a transaction that has an authorization to another one.
  pub run-authorization :
      (events : List (String × EventRequest)) (ts : List Transaction) (n : ℕ)
      → authorization_in (find_transaction station id ts) ≡ some (suc n)
      → authorization_in (find_transaction station id (run tables events ts)) ≡ some (suc n)
  run-authorization [] ts n h = h
  run-authorization ((s, r) ∷ events) ts n h =
      run-authorization events (save_event tables s r ts) n (step_authorization s r ts n h)
