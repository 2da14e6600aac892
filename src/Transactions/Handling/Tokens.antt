-- ===== src/Transactions/Handling/Tokens.antt =====
-- Events with a token and without one.
use rexharge_citrineos_core.Prelude.{
  ℕ, ◌<◌, String, ◌≡◌, ◌∙◌, refl, ap, subst, none, some, Bool, true, false, ◌==◌, List, [], ◌∷◌,
  ◌++◌, arith, eq_refl, ltb, Bool-cases, inl, inr, if◌then◌else◌,
}
use rexharge_citrineos_core.Rpc.Message.{ok}
use rexharge_citrineos_core.Money.{Big, Tariff, times, cost_at, calculate_total_cost}
use rexharge_citrineos_core.Money.Rounding.{IsCut, cost_at-IsCut}
use rexharge_citrineos_core.Authorization.{Authorization, AuthorizationStatus, is_past}
use rexharge_citrineos_core.Authorization.Mapping.{
  AuthorizationStatusEnum, from_authorization_status_type,
}
use rexharge_citrineos_core.Authorization.Tokens.{
  started, ended, IdTokenInfo, id_token_info, authorize_ocpp201_id_token, authorize_status,
  check_info,
}
use rexharge_citrineos_core.Transactions.{Transaction, is_at, find_transaction, active_count}
use rexharge_citrineos_core.Transactions.Events.{
  EventRequest, goes_on, IdToken, Tables, save_event, create_transaction, update_transaction,
  authorize,
}
use rexharge_citrineos_core.Transactions.Events.Last.{same_key, saved, find_transaction-save_event}
use rexharge_citrineos_core.Transactions.Handling.{
  Module, handled, event_response, event_service, sent, authorize_event, deactivation, notification,
  cost_of, event_cost, store_cost, keep_cost, answer_without_token, handle_authorized, finish_event,
  handle_transaction_event,
}

abbrev pub with_cost : Big → Transaction → Transaction
with_cost cost t = record t { total_cost = some cost }

same_key_refl : (s r : String) → same_key s r s r ≡ true
same_key_refl s r = rw (eq_refl s, eq_refl r) refl

find_saved :
    (tables : Tables) (s : String) (r : EventRequest) (ts : List Transaction)
    → find_transaction s r.transaction_id (save_event tables s r ts)
      ≡ some (saved tables s r (find_transaction s r.transaction_id ts))
find_saved tables s r ts =
    find_transaction-save_event tables s s r.transaction_id r ts
    ∙ rw (same_key_refl s r.transaction_id) refl

unwrap : {A : Type 0} {x y : A} → some x ≡ some y → x ≡ y
unwrap h = cc h

head_counts :
    (a : ℕ) (u : Transaction) (ts : List Transaction)
    → u.is_active ≡ true
    → u.authorization_id ≡ some a
    → 0 < active_count a (u ∷ ts)
head_counts a u ts on mine = rw (on, mine) (ground arith)

counts_more :
    (a : ℕ) (u : Transaction) (ts : List Transaction)
    → 0 < active_count a ts
    → 0 < active_count a (u ∷ ts)
counts_more a u ts h = ground arith

-- A transaction that is found and active counts for its authorization.
found_counts :
    (station id : String) (a : ℕ) (t : Transaction) (ts : List Transaction)
    → find_transaction station id ts ≡ some t
    → t.is_active ≡ true
    → t.authorization_id ≡ some a
    → 0 < active_count a ts
found_counts station id a t [] h on mine = ground arith
found_counts station id a t (u ∷ ts) h on mine = elim (Bool-cases (is_at station id u)) [
  | inl k ↦
      let same =
        unwrap (subst (λ b. (if b then some u else find_transaction station id ts) ≡ some t) k h) in
      head_counts a u ts (ap (λ x. x.is_active) same ∙ on)
        (ap (λ x. x.authorization_id) same ∙ mine)
  | inr k ↦ counts_more a u ts (
      found_counts station id a t ts
        (subst (λ b. (if b then some u else find_transaction station id ts) ≡ some t) k h) on mine)
]

module _ (m : Module) (station : String) (r : EventRequest) (ts : List Transaction) where
  -- Once a token is looked up, the event is saved, its reservation deactivated and the answer sent without
  -- a cost, whatever the status of the token; only for an accepted start are costs notified.
  pub handle_transaction_event_token :
      (now : ℕ) (token : IdToken) (info : IdTokenInfo)
      → r.id_token ≡ some token
      → authorize_ocpp201_id_token (event_service m ts) now r.event_type (m.authorizations token)
        ≡ ok info
      → handle_transaction_event m now station r ts
        ≡ handled
            (save_event m.tables station r ts)
            (deactivation r.transaction_id r.reservation_id
              ++ (sent (event_response (some info) none)
                  ∷ notification m r.event_type r.transaction_id info.status))
            none
  unfolding handle_transaction_event finish_event handle_authorized authorize_event
  handle_transaction_event_token now token info h k = rw (h, k) refl

  -- the transaction as the event leaves it
  abbrev pub saved_transaction : Transaction
  saved_transaction = saved m.tables station r (find_transaction station r.transaction_id ts)

  head_found :
      (t : Transaction) (us : List Transaction)
      → is_at station r.transaction_id t ≡ true
      → find_transaction station r.transaction_id (t ∷ us) ≡ some t
  head_found t us k = rw k refl

  tail_found :
      (t : Transaction) (us : List Transaction)
      → is_at station r.transaction_id t ≡ false
      → find_transaction station r.transaction_id (t ∷ us)
        ≡ find_transaction station r.transaction_id us
  tail_found t us k = rw k refl

  stored_cost :
      (cost : Big) (us : List Transaction) (t : Transaction)
      → find_transaction station r.transaction_id us ≡ some t
      → find_transaction station r.transaction_id (store_cost station r.transaction_id cost us)
        ≡ some (record t { total_cost = some cost })
  unfolding store_cost
  stored_cost cost [] t h = ground arith
  stored_cost cost (u ∷ us) t h = elim (Bool-cases (is_at station r.transaction_id u)) [
    | inl k ↦
        rw k
          (head_found (with_cost cost u) us k ∙ ap (λ x. some (with_cost cost x)) (unwrap (at k)))
    | inr k ↦ rw k (tail_found u _ k ∙ stored_cost cost us t (at k))
  ]
    where
      at :
          {b : Bool}
          → is_at station r.transaction_id u ≡ b
          → (if b then some u else find_transaction station r.transaction_id us) ≡ some t
      at k =
          subst (λ b. (if b then some u else find_transaction station r.transaction_id us) ≡ some t)
            k h

  ended_event_cost :
      (tariff : Tariff) (kwh cost : Big)
      → m.tariff station ≡ some tariff
      → m.energy saved_transaction ≡ some kwh
      → cost_at (some tariff) kwh ≡ ok cost
      → event_cost m station ended
          (find_transaction station r.transaction_id (save_event m.tables station r ts))
        ≡ ok (some cost)
  unfolding event_cost cost_of calculate_total_cost
  ended_event_cost tariff kwh cost p e c = rw (find_saved m.tables station r ts, p, e, c) refl

  ended_handled :
      (now : ℕ) (cost : Big)
      → r.id_token ≡ none
      → r.event_type ≡ ended
      → event_cost m station ended
          (find_transaction station r.transaction_id (save_event m.tables station r ts))
        ≡ ok (some cost)
      → handle_transaction_event m now station r ts
        ≡ handled
            (keep_cost station r.transaction_id (some cost) (save_event m.tables station r ts))
            (deactivation r.transaction_id r.reservation_id
              ++ (sent (event_response none (some cost)) ∷ []))
            none
  unfolding handle_transaction_event finish_event handle_authorized authorize_event
      answer_without_token
  ended_handled now cost h k c =
      ap (λ o. finish_event m station r ts (authorize_event m now r.event_type o ts)) h
      ∙ ap
          (λ e.
            answer_without_token station r.transaction_id
              (deactivation r.transaction_id r.reservation_id) (save_event m.tables station r ts)
              (event_cost m station e
                (find_transaction station r.transaction_id (save_event m.tables station r ts))))
          k
      ∙ ap
          (answer_without_token station r.transaction_id
            (deactivation r.transaction_id r.reservation_id) (save_event m.tables station r ts))
          c

  -- Where the energy is stored and the station has a tariff, the answer to an Ended without a token
  -- carries the price of the energy, cut to two places, whatever the currency: it has two places at
  -- most, is never above the price, and is less than a hundredth below it. A cost that is not zero is
  -- stored.
  pub ended_cost :
      (now : ℕ) (tariff : Tariff) (kwh cost : Big)
      → r.id_token ≡ none
      → r.event_type ≡ ended
      → m.tariff station ≡ some tariff
      → m.energy saved_transaction ≡ some kwh
      → cost_at (some tariff) kwh ≡ ok cost
      → ((handle_transaction_event m now station r ts).effects
          ≡ deactivation r.transaction_id r.reservation_id
            ++ (sent (event_response none (some cost)) ∷ []))
        × IsCut (times tariff.price_per_kwh kwh) cost
        × ((cost.digits == 0) ≡ false
            → find_transaction station r.transaction_id
                (handle_transaction_event m now station r ts).transactions
              ≡ some (record saved_transaction { total_cost = some cost }))
  unfolding keep_cost
  ended_cost now tariff kwh cost h k p e c =
      let all = ended_handled now cost h k (ended_event_cost tariff kwh cost p e c) in
      (
        ap (λ x. x.effects) all,
        cost_at-IsCut tariff kwh cost c,
        λ z.
            ap (λ x. find_transaction station r.transaction_id x.transactions) all
            ∙ rw z (stored_cost cost _ _ (find_saved m.tables station r ts)),
      )

  -- Where a token has one authorization that may have one transaction only, is accepted and not past its
  -- expiry, and has just started a new transaction, another start with it is answered ConcurrentTx.
  pub second_start :
      (now : ℕ) (token : IdToken) (a : Authorization)
      → r.id_token ≡ some token
      → r.event_type ≡ started
      → m.tables.authorization_of token ≡ some a.id
      → find_transaction station r.transaction_id ts ≡ none
      → m.authorizations token ≡ ok (a ∷ [])
      → a.status ≡ some AuthorizationStatus.accepted
      → is_past a.cache_expiry now ≡ false
      → a.concurrent_transaction ≡ some true
      → authorize_ocpp201_id_token
          (event_service m (save_event m.tables station r ts))
          now
          started
          (m.authorizations token)
        ≡ ok (id_token_info AuthorizationStatusEnum.concurrent_tx none)
  unfolding authorize_ocpp201_id_token authorize_status check_info from_authorization_status_type
      create_transaction update_transaction authorize
  second_start now token a h k row fresh found good past limited =
      rw (found, good, past, limited, busy) refl
    where
      created :
          find_transaction station r.transaction_id (save_event m.tables station r ts)
          ≡ some (create_transaction m.tables station r)
      created = find_saved m.tables station r ts ∙ ap (λ o. some (saved m.tables station r o)) fresh

      counted : 0 < active_count a.id (save_event m.tables station r ts)
      counted =
          found_counts station r.transaction_id a.id _ _ created (ap goes_on k)
            (ap (λ o. authorize m.tables station o none) h ∙ rw row refl)

      busy : ltb 0 (active_count a.id (save_event m.tables station r ts)) ≡ true
      busy = ground (arith, counted)
