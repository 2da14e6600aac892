-- ===== src/LocalList/Tests.antt =====
-- A list of two tokens, and a station that has an older one.
use rexharge_citrineos_core.Prelude.{
  ◌≡◌, refl, String, Option, some, none, false, [], ◌∷◌, arith, str_eq, if◌then◌else◌,
}
use rexharge_citrineos_core.Rpc.Message.{Exception, throw, ok}
use rexharge_citrineos_core.Authorization.Mapping.{IdTokenEnum, IdTokenType}
use rexharge_citrineos_core.LocalList.Versions.{
  token, ListEntry, StoredToken, ListAuthorization, Version, Link, ListTables, SentList, accepted,
  create_entries, create_or_update_version, handle_send_local_list, find_version,
}
use rexharge_citrineos_core.LocalList.Stations.{
  entries_at, create_entries_group, create_or_update_full, accepted_full,
}
use rexharge_citrineos_core.LocalList.{
  full, differential, SendLocalListRequest, SendLocalList, LocalListVersion, Repositories,
}

abbrev two : SendLocalList
two = record { update_type = differential; authorization_ids = 1 ∷ 2 ∷ [] }

abbrev repositories : Repositories
repositories = record {
  create = λ request. ok two;
  characteristics =
      record { variable_name = "Entries"; variable_instance = none; max_limit = some 3 } ∷ [];
  items_per_message = some 2;
}

abbrev request : SendLocalListRequest
request = record {
  version_number = 5;
  update_type = differential;
  authorizations = some (
      record { id_token = "a"; token_type = "Local" }
      ∷ record { id_token = "b"; token_type = "Local" }
      ∷ []);
}

abbrev current : Option LocalListVersion
current = some (record { version_number = 4; authorization_ids = 2 ∷ 3 ∷ [] })

abbrev auth : StoredToken
auth = record {
  id = 4;
  id_token = "a";
  token_type = some IdTokenType.local;
  group_authorization_id = some 9;
}

abbrev group_auth : StoredToken
group_auth = record {
  id = 9;
  id_token = "g";
  token_type = some IdTokenType.local;
  group_authorization_id = none;
}

abbrev stored : String → IdTokenEnum → Option StoredToken
stored id type = if str_eq id "a" then some auth else some group_auth

abbrev entry : ListEntry
entry = record {
  id_token = "a";
  token_type = IdTokenEnum.local;
  group = some (token "g" IdTokenEnum.local);
}

-- The entry of authorization 4 has the key 1.
abbrev old_entry : ListAuthorization
old_entry = record { id = 1; authorization_id = 4 }

abbrev old_version : Version
old_version = record { id = 1; tenant = 1; station = "cs"; version_number = 7 }

abbrev old_link : Link
old_link = record { version_id = 1; authorization_id = 1 }

abbrev new_entry : ListAuthorization
new_entry = record { id = 2; authorization_id = 4 }

abbrev tables : ListTables
tables = record {
  entries = old_entry ∷ new_entry ∷ [];
  versions = old_version ∷ [];
  links = old_link ∷ [];
  next_entry = 3;
  next_version = 2;
}

abbrev sent_list : SentList
sent_list = record { version_number = 8; update_type = full; entries = some (new_entry ∷ []) }

create_entries_group_example :
    (x : Exception) × ((create_entries stored (entry ∷ []) tables).0 ≡ throw x)
create_entries_group_example =
    create_entries_group stored [] [] entry tables ("g", IdTokenEnum.local, refl)

create_or_update_full_example :
    (t' : ListTables) × (create_or_update_version 1 "cs" sent_list full tables ≡ ok t')
    × (v : Version) × (find_version "cs" t'.versions ≡ some v)
    × (v.version_number ≡ 8)
    × (entries_at v.id t'.links ≡ 2 ∷ [])
create_or_update_full_example = create_or_update_full 1 "cs" sent_list tables (ground arith, tt)

accepted_full_example :
    (t' : ListTables) × (handle_send_local_list 1 "cs" (some sent_list) accepted tables
      ≡ (ok t', false))
    × (v : Version) × (find_version "cs" t'.versions ≡ some v)
    × (v.version_number ≡ 8)
    × (entries_at v.id t'.links ≡ [])
accepted_full_example = accepted_full 1 "cs" sent_list tables (ground arith, tt) refl
