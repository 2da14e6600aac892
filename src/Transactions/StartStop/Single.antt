-- ===== src/Transactions/StartStop/Single.antt =====
-- How many transactions of an authorization are active.
use rexharge_citrineos_core.Prelude.{
  ℕ, suc, ◌≤◌, String, ◌≡◌, ◌≢◌, ◌⊎◌, ◌∙◌, inl, inr, refl, sym, ap, subst, Option, none, some, Bool,
  true, false, ◌==◌, List, [], ◌∷◌, arith, get_or, eq_refl, if◌then◌else◌,
}
use rexharge_citrineos_core.Prelude.Decimal.{print, parse, parse-print}
use rexharge_citrineos_core.Rpc.Message.{Result, ok, throw}
use rexharge_citrineos_core.Authorization.{Authorization, AuthorizationStatus, IdTagStatus}
use rexharge_citrineos_core.Authorization.Tokens.{IdTagInfo, authorize_ocpp16_id_token}
use rexharge_citrineos_core.Authorization.Tokens.Accepted.{
  PassesWithGroup, accepted_ocpp16_iff, only,
}
use rexharge_citrineos_core.Transactions.{Transaction, active_count}
use rexharge_citrineos_core.Transactions.StartStop.{
  Backend, Connector, StartRequest, StartResponse, service_of, only_one, build_transaction,
  with_authorization, with_connector, create_transaction_by_start_transaction, after_creation,
  after_authorization, handle_start_transaction, handle_stop_transaction, finish_stop,
  end_transaction,
}

-- An active transaction of the station under a printed number.
pub record IsNew (station : String) (authorization : Option ℕ) (t : Transaction) : Type 0 where
  pub at : t.station ≡ station
  pub number : ℕ
  pub numbered : t.transaction_id ≡ print number
  pub active : t.is_active ≡ true
  pub authorized : t.authorization_id ≡ authorization

unwrap : {A : Type 0} {x y : A} → ok x ≡ ok y → x ≡ y
unwrap h = cc h

at_most_one : (b : Bool) (c : ℕ) → c ≡ 0 → (if b then suc c else c) ≤ 1
at_most_one true c h = omega (arith, h)
at_most_one false c h = omega (arith, h)

other_count : (i j c : ℕ) → i ≢ j → (if i == j then suc c else c) ≡ c
other_count i j c n = ground arith

finish_ends :
    (station : String) (n : ℕ) (ts : List Transaction) (o : Result (Option IdTagInfo))
    (info : Option IdTagInfo)
    → (finish_stop station n ts o).0 ≡ ok info
    → (finish_stop station n ts o).1 ≡ end_transaction station (print n) ts
unfolding finish_stop
finish_ends station n ts (ok i) info h = refl
finish_ends station n ts (throw e) info h = ground arith

build-IsNew :
    (station : String) (c : Connector) (o : Option ℕ) (r : Result ℕ) (t : Transaction)
    → build_transaction station c o r ≡ ok t
    → IsNew station o t
unfolding build_transaction
build-IsNew station c o (throw e) t h = ground arith
build-IsNew station c o (ok n) t h =
    subst (IsNew station o) (unwrap h)
      (record { at = refl; number = n; numbered = refl; active = refl; authorized = refl })

module _ (backend : Backend) (station : String) (r : StartRequest) (a : Authorization) where
  connected-IsNew :
      (o : Result (Option Connector)) (t : Transaction)
      → backend.authorizations r.id_tag ≡ ok (a ∷ [])
      → with_connector backend station r o ≡ ok t
      → IsNew station (some a.id) t
  unfolding with_connector with_authorization only_one
  connected-IsNew (throw e) t q h = ground arith
  connected-IsNew (ok none) t q h = ground arith
  connected-IsNew (ok (some c)) t q h =
      build-IsNew station c (some a.id) backend.next_id t
        (subst (λ x. with_authorization backend station c (only_one x) ≡ ok t) q h)

  -- A start leaves the transactions as they are, or adds one for an accepted token.
  abbrev Adds : IdTagStatus → List Transaction → List Transaction → Type 0
  Adds s ts ts' =
      (ts' ≡ ts)
      ⊎ ((t : Transaction) × (ts' ≡ t ∷ ts)
          × (s ≡ IdTagStatus.accepted)
          × IsNew station (some a.id) t)

  creation-Adds :
      (info : IdTagInfo) (ts : List Transaction) (o : Result Transaction)
      → ((t : Transaction) → o ≡ ok t → IsNew station (some a.id) t)
      → Adds IdTagStatus.accepted ts (after_creation info ts o).1
  unfolding after_creation
  creation-Adds info ts (ok t) h = inr (t, refl, refl, h t refl)
  creation-Adds info ts (throw e) h = inl refl

  authorization-Adds :
      (ts : List Transaction) (info : IdTagInfo) (s : IdTagStatus)
      → backend.authorizations r.id_tag ≡ ok (a ∷ [])
      → Adds s ts (after_authorization backend station r ts info s).1
  unfolding after_authorization create_transaction_by_start_transaction
  authorization-Adds ts info IdTagStatus.accepted q =
      creation-Adds info ts _ (λ t h. connected-IsNew (backend.connector r.connector_id) t q h)
  authorization-Adds ts info s q = inl refl

  count_new :
      (i : ℕ) (t : Transaction) (ts : List Transaction)
      → IsNew station (some a.id) t
      → active_count i (t ∷ ts) ≡ (if i == a.id then suc (active_count i ts) else active_count i ts)
  count_new i t ts new = rw (new.active, new.authorized) refl

  module _ (now : ℕ) (ts : List Transaction)
      (q : backend.authorizations r.id_tag ≡ ok (a ∷ [])) where
    start-Adds :
        Adds
          (authorize_ocpp16_id_token
            (service_of backend ts)
            now
            (backend.authorizations r.id_tag)).status
          ts
          (handle_start_transaction backend now station r ts).transactions
    unfolding handle_start_transaction
    start-Adds = authorization-Adds ts _ _ q

    none_active :
        (s : AuthorizationStatus)
        → a.status ≡ some s
        → (authorize_ocpp16_id_token
            (service_of backend ts)
            now
            (backend.authorizations r.id_tag)).status
          ≡ IdTagStatus.accepted
        → active_count a.id ts ≡ 0
    none_active s h k =
        let (x, same, passes) = (accepted_ocpp16_iff (service_of backend ts) now _).0 k in
        idle (subst (PassesWithGroup (service_of backend ts) now) (only (sym q ∙ same)) passes)
      where
        idle : PassesWithGroup (service_of backend ts) now a → active_count a.id ts ≡ 0
        idle (inl k) = ground arith
        idle (inr (k, past, busy, all, parent)) = ground arith

    -- Where the token has one authorization, with a status, a start leaves at most one active transaction
    -- of that authorization if there was at most one, and changes the number of no other.
    pub start-single :
        (s : AuthorizationStatus)
        → a.status ≡ some s
        → active_count a.id ts ≤ 1
        → (active_count a.id (handle_start_transaction backend now station r ts).transactions ≤ 1)
          × ((i : ℕ)
              → i ≢ a.id
              → active_count i (handle_start_transaction backend now station r ts).transactions
                ≡ active_count i ts)
    start-single s h few = elim start-Adds [
      | inl k ↦ (subst (λ l. active_count a.id l ≤ 1) (sym k) few, λ i n. ap (active_count i) k)
      | inr (t, k, good, new) ↦ (
        subst (λ n. n ≤ 1) (sym (ap (active_count a.id) k ∙ count_new a.id t ts new))
            (at_most_one _ _ (none_active s h good)),
        λ i n.
            ap (active_count i) k ∙ count_new i t ts new ∙ other_count i a.id (active_count i ts) n,
      )
    ]

    -- what an accepted start adds, and the number in its answer
    abbrev IsAdded : StartResponse × List Transaction → Type 0
    IsAdded x =
        (t : Transaction) × (x.1 ≡ t ∷ ts)
        × IsNew station (some a.id) t
        × (t.transaction_id ≡ print x.0.transaction_id)

    creation-IsAdded :
        (info : IdTagInfo) (o : Result Transaction)
        → ((t : Transaction) → o ≡ ok t → IsNew station (some a.id) t)
        → (after_creation info ts o).0.id_tag_info.status ≡ IdTagStatus.accepted
        → IsAdded (after_creation info ts o)
    unfolding after_creation
    creation-IsAdded info (throw e) h k = ground arith
    creation-IsAdded info (ok t) h k = let new = h t refl in (t, refl, new, printed new)
      where
        printed :
            IsNew station (some a.id) t
            → t.transaction_id ≡ print (get_or (parse t.transaction_id) 0)
        printed new = rw (new.numbered, parse-print new.number) refl

    authorization-IsAdded :
        (info : IdTagInfo) (s : IdTagStatus)
        → info.status ≡ s
        → (after_authorization backend station r ts info s).0.id_tag_info.status
          ≡ IdTagStatus.accepted
        → IsAdded (after_authorization backend station r ts info s)
    unfolding after_authorization create_transaction_by_start_transaction
    authorization-IsAdded info IdTagStatus.accepted h k =
        creation-IsAdded info _ (λ t e. connected-IsNew (backend.connector r.connector_id) t q e) k
    authorization-IsAdded info s h k = ground arith

    ended_count :
        (i n : ℕ) (t : Transaction)
        → IsNew station (some a.id) t
        → t.transaction_id ≡ print n
        → active_count i (end_transaction station (print n) (t ∷ ts)) ≡ active_count i ts
    unfolding end_transaction
    ended_count i n t new e =
        rw (new.at, e, eq_refl station, eq_refl (print n), new.authorized) refl

    -- A stop with the number of an accepted start, if it is answered at all, leaves every authorization as
    -- many active transactions as it had before the start.
    pub stop-start :
        (tag : Option String) (stopped : Option Authorization) (info : Option IdTagInfo) (i : ℕ)
        → (handle_start_transaction backend now station r ts).response.id_tag_info.status
          ≡ IdTagStatus.accepted
        → (handle_stop_transaction backend station
            (handle_start_transaction backend now station r ts).response.transaction_id
            tag
            stopped
            (handle_start_transaction backend now station r ts).transactions).0
          ≡ ok info
        → active_count i
            (handle_stop_transaction backend station
              (handle_start_transaction backend now station r ts).response.transaction_id
              tag
              stopped
              (handle_start_transaction backend now station r ts).transactions).1
          ≡ active_count i ts
    unfolding handle_start_transaction handle_stop_transaction
    stop-start tag stopped info i h k =
        let (t, added, new, e) = authorization-IsAdded _ _ refl h in
        ap (active_count i) (finish_ends station _ _ _ info k)
        ∙ ap
            (λ l. active_count i (
              end_transaction station
                (print (handle_start_transaction backend now station r ts).response.transaction_id)
                l))
            added
        ∙ ended_count i _ t new e
