-- ===== src/Boot/Namespaces.antt =====
-- Where the boot handlers write, and where the router reads.

use rexharge_citrineos_core.Prelude.{
  ℕ, suc, ◌≤◌, String, ◌≡◌, ◌≢◌, refl, ap, sym, ◌∙◌, Option, none, some, Bool, true, false, List,
  [], ◌∷◌, arith, eq_iff, Bool-cases, inl, inr, str_eq, ◌==◌, all,
}
use rexharge_citrineos_core.Prelude.Text.{colon_join, Lacks}
use rexharge_citrineos_core.Prelude.Colons.{colons, colons-colon_join, colons-Lacks}
use rexharge_citrineos_core.Prelude.Decimal.{print}
use rexharge_citrineos_core.Identifier.{create_identifier}
use rexharge_citrineos_core.Cache.Store.{Store, full_key, get_text, set, exists, remove_key}
use rexharge_citrineos_core.Rpc.Actions.{ocpp2_0_1_call_schemas}
use rexharge_citrineos_core.Rpc.Value.{Value}
use rexharge_citrineos_core.Rpc.Message.{Protocol, CallAction, action_text}
use rexharge_citrineos_core.Router.Sending.{send_call_is_allowed}
use rexharge_citrineos_core.Router.Receiving.{on_call_is_allowed}
use rexharge_citrineos_core.Boot.{
  RegistrationStatus, accepted, pending, rejected, whitelist, blacklist, cache_permissions,
  cache_charger_actions_permissions, note_status, handle_boot,
}

no_colon : {n : ℕ} → suc n ≢ colons ""
unfolding colons
no_colon e = omega arith

-- A key in the namespace of a station, and one in the namespace of a connection.
colons-station_key :
    (station action : String)
    → colons station ≡ 0
    → colons action ≡ 0
    → colons (full_key action (some station)) ≡ 1
unfolding colons
colons-station_key station action one two = elim (Bool-cases (str_eq station "")) [
  | inl blank ↦ rw blank (ground (arith, colons-colon_join "default" action))
  | inr named ↦ rw named (ground (arith, colons-colon_join station action))
]

colons-identifier_key :
    (tenant : ℕ) (name key : String)
    → 2 ≤ colons (full_key key (some (create_identifier tenant name)))
unfolding create_identifier
colons-identifier_key tenant name key =
    elim (Bool-cases (str_eq (colon_join (print tenant) name) "")) [
      | inl blank ↦ absurd (
          no_colon (
            sym (colons-colon_join (print tenant) name)
            ∙ ap colons ((eq_iff (colon_join (print tenant) name) "").0 blank)))
      | inr named ↦ rw named (
          ground (
            arith,
            colons-colon_join (colon_join (print tenant) name) key,
            colons-colon_join (print tenant) name,
          ))
    ]

other_key :
    (station action : String) (tenant : ℕ) (name key : String)
    → colons station ≡ 0
    → colons action ≡ 0
    → str_eq (full_key action (some station)) (full_key key (some (create_identifier tenant name)))
      ≡ false
other_key station action tenant name key one two =
    elim (Bool-cases (
      str_eq (full_key action (some station))
        (full_key key (some (create_identifier tenant name))))) [
          | inl same ↦ absurd (
              clash (
                ap colons (
                  (eq_iff (full_key action (some station))
                      (full_key key (some (create_identifier tenant name)))).0
                    same)))
          | inr differs ↦ differs
        ]
  where
    clash :
        colons (full_key action (some station))
        ≢ colons (full_key key (some (create_identifier tenant name)))
    clash e =
        omega (
          arith,
          colons-station_key station action one two,
          colons-identifier_key tenant name key,
          e,
        )

abbrev is_plain : String → Bool
is_plain s = colons s == 0

module _ (station : String) (tenant : ℕ) (name key : String) (plain : colons station ≡ 0) where
  abbrev read_key : String
  read_key = full_key key (some (create_identifier tenant name))

  set_unseen :
      (k v : String) (cache : Store)
      → colons k ≡ 0
      → set k v (some station) cache read_key ≡ cache read_key
  unfolding set
  set_unseen k v cache h = rw (other_key station k tenant name key plain h) refl

  remove_unseen :
      (k : String) (cache : Store)
      → colons k ≡ 0
      → (remove_key k (some station) cache).1 read_key ≡ cache read_key
  unfolding remove_key
  remove_unseen k cache h = rw (other_key station k tenant name key plain h) refl

  blacklist_unseen :
      (actions : List String) (cache : Store)
      → all is_plain actions ≡ true
      → blacklist station actions cache read_key ≡ cache read_key
  unfolding blacklist
  blacklist_unseen [] cache h = refl
  blacklist_unseen (a ∷ actions) cache h = elim (Bool-cases (str_eq a "BootNotification")) [
    | inl boot ↦ rw boot (blacklist_unseen actions cache (ground arith))
    | inr other ↦ rw other (
        blacklist_unseen actions (set a "blacklisted" (some station) cache) (ground arith)
        ∙ set_unseen a "blacklisted" cache (ground arith))
  ]

  whitelist_unseen :
      (actions : List String) (cache : Store)
      → all is_plain actions ≡ true
      → whitelist station actions cache read_key ≡ cache read_key
  unfolding whitelist
  whitelist_unseen [] cache h = refl
  whitelist_unseen (a ∷ actions) cache h = elim (Bool-cases (str_eq a "BootNotification")) [
    | inl boot ↦ rw boot (whitelist_unseen actions cache (ground arith))
    | inr other ↦ rw other (
        whitelist_unseen actions (remove_key a (some station) cache).1 (ground arith)
        ∙ remove_unseen a cache (ground arith))
  ]

  permissions_unseen :
      (actions : List String) (cached : Option String) (status : RegistrationStatus) (cache : Store)
      → all is_plain actions ≡ true
      → cache_permissions actions station cached status cache read_key ≡ cache read_key
  unfolding cache_permissions colons
  permissions_unseen actions none accepted cache h = refl
  permissions_unseen actions (some old) accepted cache h =
      remove_unseen "boot_status" (whitelist station actions cache) refl
      ∙ whitelist_unseen actions cache h
  permissions_unseen actions none pending cache h = blacklist_unseen actions cache h
  permissions_unseen actions none rejected cache h = blacklist_unseen actions cache h
  permissions_unseen actions (some old) pending cache h = refl
  permissions_unseen actions (some old) rejected cache h = refl

  note_unseen :
      (cached : Option String) (status : RegistrationStatus) (cache : Store)
      → note_status station cached status cache read_key ≡ cache read_key
  unfolding note_status colons
  note_unseen cached accepted cache = refl
  note_unseen none pending cache = set_unseen "boot_status" "Pending" cache refl
  note_unseen none rejected cache = set_unseen "boot_status" "Rejected" cache refl
  note_unseen (some old) pending cache = elim (Bool-cases (str_eq "Pending" old)) [
    | inl same ↦ rw same refl
    | inr new ↦ rw new (set_unseen "boot_status" "Pending" cache refl)
  ]
  note_unseen (some old) rejected cache = elim (Bool-cases (str_eq "Rejected" old)) [
    | inl same ↦ rw same refl
    | inr new ↦ rw new (set_unseen "boot_status" "Rejected" cache refl)
  ]

  handle_boot_unseen :
      (confirmed : Bool) (status : RegistrationStatus) (cache : Store)
      → handle_boot cache_charger_actions_permissions station confirmed status cache read_key
        ≡ cache read_key
  unfolding handle_boot cache_charger_actions_permissions colons
  handle_boot_unseen true status cache =
      let cached = get_text "boot_status" (some station) cache in
      note_unseen cached status (cache_charger_actions_permissions station cached status cache)
      ∙ permissions_unseen ocpp2_0_1_call_schemas cached status cache refl
  handle_boot_unseen false status cache =
      permissions_unseen ocpp2_0_1_call_schemas _ status cache refl

-- Whatever status a boot with OCPP 2.0.1 gets, of a station whose name holds no colon, the router's two tests answer
-- as if the boot had not been handled, for every connection, this station's own included: what
-- its connection may call, and what may be called on it.
pub handle_boot_invisible :
    (station : String) (confirmed : Bool) (status : RegistrationStatus) (cache : Store) (tenant : ℕ)
    (name : String) (received : CallAction) (protocol : Protocol) (action : String)
    (payload : Value)
    → Lacks b':' station
    → (on_call_is_allowed received
          (create_identifier tenant name)
          (handle_boot cache_charger_actions_permissions station confirmed status cache)
        ≡ on_call_is_allowed received (create_identifier tenant name) cache)
      × (send_call_is_allowed
            (create_identifier tenant name)
            protocol
            action
            payload
            (handle_boot cache_charger_actions_permissions station confirmed status cache)
          ≡ send_call_is_allowed (create_identifier tenant name) protocol action payload cache)
unfolding on_call_is_allowed send_call_is_allowed exists get_text
handle_boot_invisible station confirmed status cache tenant name received protocol action payload
      away =
    (
      rw
          (handle_boot_unseen station tenant name (action_text received) (colons-Lacks station away)
            confirmed status cache)
          refl,
      rw
          (handle_boot_unseen station tenant name "boot_status" (colons-Lacks station away)
            confirmed status cache)
          refl,
    )
