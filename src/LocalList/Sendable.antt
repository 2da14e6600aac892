-- ===== src/LocalList/Sendable.antt =====
-- What holds of a list that passes.
use rexharge_citrineos_core.Prelude.{
  ℕ, ◌≤◌, ◌<◌, ◌≡◌, refl, Option, some, false, List, [], ◌∷◌, length, get_or, true, ◌++◌, All,
}
use rexharge_citrineos_core.Rpc.Message.{ok}
use rexharge_citrineos_core.LocalList.{
  VariableCharacteristics, is_of_variable, SendLocalListRequest, SendLocalList, LocalListVersion,
  Repositories, has_duplicates, is_outdated, ids_of, count_for, create_send_local_list, items_limit,
  persist_created, persist_send_local_list,
}

-- A limit stands in the first of the rows for the variable Entries without an instance.
abbrev pub IsFirstLimit : ℕ → List VariableCharacteristics → Type 0
IsFirstLimit limit rows =
    (front : List VariableCharacteristics) × (c : VariableCharacteristics) × (back : List
      VariableCharacteristics)
    × (rows ≡ front ++ c ∷ back)
    × All (λ d. is_of_variable "Entries" d ≡ false) front
    × (is_of_variable "Entries" c ≡ true)
    × (c.max_limit ≡ some limit)

-- What a list has passed: its version is positive and above the station's, no token is in it twice, it
-- is stored, and the numbers of entries and of items are within their limits.
pub record IsSendable (repositories : Repositories) (current : Option LocalListVersion)
    (request : SendLocalListRequest) (l : SendLocalList) : Type 0 where
  pub positive : 0 < request.version_number
  pub newer : is_outdated current request.version_number ≡ false
  pub no_duplicates : has_duplicates request.authorizations ≡ false
  pub created : repositories.create request ≡ ok l
  pub entries : ℕ
  pub limit : ℕ
  pub counted : count_for l.update_type l.authorization_ids (ids_of current) ≡ ok entries
  pub limited : IsFirstLimit limit repositories.characteristics
  pub within : entries ≤ limit
  pub items :
      length (get_or request.authorizations [])
      ≤ items_limit repositories.items_per_message (length (get_or request.authorizations []))

module _ (repositories : Repositories) (current : Option LocalListVersion)
    (request : SendLocalListRequest) (l : SendLocalList) where
  -- A list that passes the first checks is stored, whatever the checks of its length say afterwards.
  persist_send_local_list_stores :
      (stored : List SendLocalList)
      → create_send_local_list repositories current request ≡ ok l
      → (persist_send_local_list repositories current request stored).1 ≡ l ∷ stored
  unfolding persist_send_local_list persist_created
  persist_send_local_list_stores stored h = rw h refl
