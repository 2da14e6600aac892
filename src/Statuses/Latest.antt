-- ===== src/Statuses/Latest.antt =====
-- What is known of a connector after a notification.
use rexharge_citrineos_core.Prelude.{
  ℕ, suc, String, ◌≡◌, refl, Option, none, some, Bool, true, false, ◌==◌, List, [], ◌∷◌, ◌++◌,
  arith, eq_refl, Bool-cases, inl, inr, if◌then◌else◌,
}
use rexharge_citrineos_core.Statuses.{
  StatusNotification, ConnectorRow, Notice, Tables, is_connector, create_or_update_connector,
  is_notice, drop_notices, update_latest, notice, connector_row, process_status_notification,
}

abbrev count_notices : String → ℕ → ℕ → List Notice → ℕ
count_notices station evse c [] = 0
count_notices station evse c (n ∷ ns) =
    let rest = count_notices station evse c ns in
    if is_notice station evse c n then suc rest else rest

abbrev find_connector : String → ℕ → List ConnectorRow → Option ConnectorRow
find_connector station c [] = none
find_connector station c (r ∷ rs) =
    let rest = find_connector station c rs in if is_connector station c r then some r else rest

same_number : (n : ℕ) → (n == n) ≡ true
same_number n = ground arith

count-drop :
    (n : Notice) (ns : List Notice)
    → count_notices n.station n.notification.evse_id n.notification.connector_id
        (drop_notices n.station n.notification.evse_id n.notification.connector_id ns ++ (n ∷ []))
      ≡ 1
count-drop n [] =
    rw
      (
        eq_refl n.station,
        same_number n.notification.evse_id,
        same_number n.notification.connector_id,
      )
      refl
count-drop n (m ∷ ns) =
    elim (Bool-cases (is_notice n.station n.notification.evse_id n.notification.connector_id m)) [
      | inl h ↦ rw h (count-drop n ns)
      | inr h ↦ rw (h, h) (count-drop n ns)
    ]

own_row : (r : ConnectorRow) → is_connector r.station r.connector_id r ≡ true
own_row r = rw (eq_refl r.station, same_number r.connector_id) refl

find_created :
    (new : ConnectorRow) (rs : List ConnectorRow)
    → find_connector new.station new.connector_id (create_or_update_connector new rs) ≡ some new
unfolding create_or_update_connector
find_created new [] = rw (own_row new) refl
find_created new (r ∷ rs) = elim (Bool-cases (is_connector new.station new.connector_id r)) [
  | inl h ↦ rw (h, own_row new) refl
  | inr h ↦ rw (h, h) (find_created new rs)
]

-- After a notification of a stored station, the row of the connector has its status, and it is the one
-- latest notification of its EVSE and connector.
process_status_notification_lem :
    (has_component : Bool) (now station : String) (r : StatusNotification) (t : Tables)
    → (find_connector station r.connector_id
          (process_status_notification true has_component now station r t).connectors
        ≡ some (connector_row now station r))
      × (count_notices station r.evse_id r.connector_id
            (process_status_notification true has_component now station r t).latest
          ≡ 1)
unfolding process_status_notification update_latest
process_status_notification_lem has_component now station r t = (
  find_created (connector_row now station r) t.connectors,
  count-drop (notice station r) t.latest,
)

-- The connectors do not tell the EVSEs of a station apart: the notification of a connector of one EVSE
-- overwrites the row of the connector with the same number of another.
process_status_notification_forgets :
    (is_known has_component : Bool) (now station : String) (r : StatusNotification) (evse : ℕ)
    (t : Tables)
    → (process_status_notification is_known has_component now station
        (record r { evse_id = evse })
        t).connectors
      ≡ (process_status_notification is_known has_component now station r t).connectors
unfolding process_status_notification
process_status_notification_forgets false has_component now station r evse t = refl
process_status_notification_forgets true has_component now station r evse t = refl
