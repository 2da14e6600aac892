-- ===== src/LocalList/Stations.antt =====
-- What becomes of the lists that the stations have.
use rexharge_citrineos_core.Prelude.{
  ◌≡◌, ◌≢◌, refl, sym, ap, ap₂, ◌∙◌, subst, ℕ, zero, suc, ◌<◌, String, Option, none, some, Bool,
  true, false, not, List, [], ◌∷◌, ◌++◌, arith, All, Bool-cases, inl, inr, ◌==◌, ◌&&◌, ◌||◌, str_eq,
  eq_refl, map,
}
use mathlib.Core.List.{append_assoc}
use rexharge_citrineos_core.Rpc.Message.{Exception, Result, ok, throw}
use rexharge_citrineos_core.Authorization.Mapping.{IdTokenEnum}
use rexharge_citrineos_core.LocalList.{full, differential}
use rexharge_citrineos_core.LocalList.Versions.{
  token, ListEntry, StoredToken, ListAuthorization, Version, Link, ListTables, differs, key_of,
  wrong_group, check_group, check_found, check_entry, create_entries, SentList, find_version,
  destroy, is_of, links_to, entries_of, old_links, without_station, replace_version, merge_entries,
  has_authorization, is_link, handle_send_local_list, accepted, create_or_update_version,
  type_differs, with_entry, update_version, update_found, as_read, set_version, prepended,
  add_entry,
}

-- The entries of the links of a version, in their order.
unfoldable pub entries_at : ℕ → List Link → List ℕ
entries_at version [] = []
entries_at version (l ∷ ls) =
    let rest = entries_at version ls in
    elim (is_of version l) [ true ↦ l.authorization_id ∷ rest | false ↦ rest ]

entries_at-append :
    (version : ℕ) (ls ms : List Link)
    → entries_at version (ls ++ ms) ≡ entries_at version ls ++ entries_at version ms
unfolding entries_at
entries_at-append version [] ms = refl
entries_at-append version (l ∷ ls) ms = elim (Bool-cases (is_of version l)) [
  | inl h ↦ rw (h, entries_at) (ap (◌∷◌ l.authorization_id) (entries_at-append version ls ms))
  | inr h ↦ rw (h, entries_at) (entries_at-append version ls ms)
]

differs-none : (group : Option ℕ) → differs none group ≡ true
differs-none none = refl
differs-none (some zero) = refl
differs-none (some (suc n)) = refl

check_group_token :
    (find : String → IdTokenEnum → Option StoredToken) (auth : StoredToken) (id : String)
    (type : IdTokenEnum)
    → check_group find auth (some (token id type)) ≡ some wrong_group
unfolding check_group
check_group_token find auth id type =
    elim (Bool-cases (differs (key_of (find id type)) auth.group_authorization_id)) [
      | inl h ↦ rw h
      | inr h ↦ rw (h, differs-none auth.group_authorization_id)
    ]

-- An entry whose token has a group with a token of its own.
abbrev pub HasGroup : ListEntry → Type 0
HasGroup e = (id : String) × (type : IdTokenEnum) × (e.group ≡ some (token id type))

check_found_group :
    (find : String → IdTokenEnum → Option StoredToken) (e : ListEntry) (found : Option StoredToken)
    → HasGroup e
    → (auth : StoredToken) → check_found find e found ≢ ok auth
unfolding check_found
check_found_group find e none h auth = λ k. cc
check_found_group find e (some a) (id, type, h) auth =
    elim (Bool-cases
      (not (str_eq e.id_token a.id_token) || type_differs e.token_type a.token_type)) [
        | inl b ↦ rw b (λ k. cc)
        | inr b ↦ rw (b, h, check_group_token find a id type) (λ k. cc)
      ]

rest_refused :
    (x : ListAuthorization) (l : List ListAuthorization) (rest : Result (List ListAuthorization))
    → ((l' : List ListAuthorization) → rest ≢ ok l')
    → prepended x rest ≢ ok l
rest_refused x l (throw y) h = λ k. cc
rest_refused x l (ok l') h = λ k. h l' refl

module _ (t : ListTables) (next : ListTables → Result (List ListAuthorization) × ListTables) where
  with_entry_refused :
      (r : Result StoredToken) (l : List ListAuthorization)
      → ((auth : StoredToken) → r ≢ ok auth)
      → (with_entry r t next).0 ≢ ok l
  with_entry_refused (throw x) l h = λ k. cc
  with_entry_refused (ok auth) l h = λ k. absurd (h auth refl)

  with_entry_next :
      (r : Result StoredToken) (l : List ListAuthorization)
      → ((t' : ListTables) (l' : List ListAuthorization) → (next t').0 ≢ ok l')
      → (with_entry r t next).0 ≢ ok l
  with_entry_next (throw x) l h = λ k. cc
  with_entry_next (ok auth) l h =
      rest_refused _ l (next (add_entry auth t)).0 (h (add_entry auth t))

never_created :
    (find : String → IdTokenEnum → Option StoredToken) (front back : List ListEntry) (e : ListEntry)
    (t : ListTables)
    → HasGroup e
    → (l : List ListAuthorization) → (create_entries find (front ++ e ∷ back) t).0 ≢ ok l
unfolding create_entries check_entry
never_created find [] back e t h l =
    with_entry_refused t (create_entries find back) _ l
      (check_found_group find e (find e.id_token e.token_type) h)
never_created find (x ∷ front) back e t h l =
    with_entry_next t (create_entries find (front ++ e ∷ back)) _ l
      (λ t' l'. never_created find front back e t' h l')

is_thrown :
    (r : Result (List ListAuthorization))
    → ((l : List ListAuthorization) → r ≢ ok l)
    → (x : Exception) × (r ≡ throw x)
is_thrown (ok l) h = absurd (h l refl)
is_thrown (throw x) h = (x, refl)

-- A request is refused that holds an entry whose token is in a group, with the group's token, whatever
-- authorizations are stored, and even if it is the group of the authorization.
pub create_entries_group :
    (find : String → IdTokenEnum → Option StoredToken) (front back : List ListEntry) (e : ListEntry)
    (t : ListTables)
    → HasGroup e
    → (x : Exception) × ((create_entries find (front ++ e ∷ back) t).0 ≡ throw x)
create_entries_group find front back e t h =
    is_thrown (create_entries find (front ++ e ∷ back) t).0 (never_created find front back e t h)

find_version-replaced :
    (station : String) (vs : List Version) (v : Version)
    → v.station ≡ station
    → find_version station (without_station station vs ++ v ∷ []) ≡ some v
unfolding find_version without_station
find_version-replaced station [] v h = rw (h, eq_refl station)
find_version-replaced station (x ∷ vs) v h = elim (Bool-cases (str_eq x.station station)) [
  | inl e ↦ rw e (find_version-replaced station vs v h)
  | inr e ↦ rw e (rw e (find_version-replaced station vs v h))
]

entries_at-links_to :
    (version : ℕ) (es : List ListAuthorization)
    → entries_at version (links_to version es) ≡ map (λ e. e.id) es
unfolding entries_at links_to
entries_at-links_to version [] = refl
entries_at-links_to version (e ∷ es) =
    let own : (version == version) ≡ true = ground arith in
    rw (own, entries_at) (ap (◌∷◌ e.id) (entries_at-links_to version es))

-- No link is to a version whose key is not given out yet.
abbrev pub LinksBelow : ℕ → List Link → Type 0
LinksBelow n = All (λ k. k.version_id < n)

entries_at-fresh : (n : ℕ) (ls : List Link) → LinksBelow n ls → entries_at n ls ≡ []
unfolding entries_at
entries_at-fresh n [] h = refl
entries_at-fresh n (l ∷ ls) h =
    let away : is_of n l ≡ false = ground arith in rw (away, entries_at) (entries_at-fresh n ls h.1)

destroy-LinksBelow :
    (p : Link → Bool) (n : ℕ) (ls : List Link) → LinksBelow n ls → LinksBelow n (destroy p ls)
unfolding destroy
destroy-LinksBelow p n [] h = tt
destroy-LinksBelow p n (l ∷ ls) h = elim (Bool-cases (p l)) [
  | inl e ↦ rw e (destroy-LinksBelow p n ls h.1)
  | inr e ↦ rw e (h.0, destroy-LinksBelow p n ls h.1)
]

old_links-LinksBelow :
    (v : Option Version) (n : ℕ) (ls : List Link) → LinksBelow n ls → LinksBelow n (old_links v ls)
old_links-LinksBelow none n ls h = h
old_links-LinksBelow (some v) n ls h = destroy-LinksBelow (is_of v.id) n ls h

-- Where the keys of the versions are fresh, a full list that is stored for a station becomes the
-- station's version, with the entries of the list, in their order, whatever the station had before.
pub create_or_update_full :
    (tenant : ℕ) (station : String) (l : SentList) (t : ListTables)
    → LinksBelow t.next_version t.links
    → (t' : ListTables) × (create_or_update_version tenant station l full t ≡ ok t')
      × (v : Version) × (find_version station t'.versions ≡ some v)
      × (v.version_number ≡ l.version_number)
      × (entries_at v.id t'.links ≡ map (λ e. e.id) (entries_of l.entries))
unfolding create_or_update_version replace_version
create_or_update_full tenant station l t below = (
  replace_version tenant station l t,
  refl,
  record {
    id = t.next_version;
    tenant = tenant;
    station = station;
    version_number = l.version_number;
  },
  find_version-replaced station t.versions _ refl,
  refl,
  entries_at-append t.next_version (old_links (find_version station t.versions) t.links)
        (links_to t.next_version (entries_of l.entries))
      ∙ ap₂ (λ x y. x ++ y)
          (entries_at-fresh t.next_version _
            (old_links-LinksBelow (find_version station t.versions) t.next_version t.links below))
          (entries_at-links_to t.next_version (entries_of l.entries)),
)

-- Where the keys of the versions are fresh and a station accepts a full list, the station's version is
-- afterwards that of the list, and it has no entries, whatever entries the list had.
pub accepted_full :
    (tenant : ℕ) (station : String) (l : SentList) (t : ListTables)
    → LinksBelow t.next_version t.links
    → l.update_type ≡ full
    → (t' : ListTables) × (handle_send_local_list tenant station (some l) accepted t
        ≡ (ok t', false))
      × (v : Version) × (find_version station t'.versions ≡ some v)
      × (v.version_number ≡ l.version_number)
      × (entries_at v.id t'.links ≡ [])
unfolding handle_send_local_list
accepted_full tenant station l t below h =
    let (t', stored, v, found, number, entries) =
      create_or_update_full tenant station (as_read l) t below in
    (
      t',
      ap (λ u. (create_or_update_version tenant station (as_read l) u t, false)) h
          ∙ ap (λ r. (r, false)) stored,
      v,
      found,
      number,
      entries,
    )

and_false : (a b : Bool) → b ≡ false → (a && b) ≡ false
and_false true b h = h
and_false false b h = refl

other_link : (version id : ℕ) (k : Link) → id ≢ k.authorization_id → is_link version id k ≡ false
other_link version id k away =
    and_false (k.version_id == version) (k.authorization_id == id) (ground arith)

-- A link stands somewhere in a list.
abbrev pub Holds : Link → List Link → Type 0
Holds k ls = (front : List Link) × (back : List Link) × (ls ≡ front ++ k ∷ back)

destroy-Holds :
    (p : Link → Bool) (k : Link) (front back : List Link)
    → p k ≡ false
    → Holds k (destroy p (front ++ k ∷ back))
unfolding destroy
destroy-Holds p k [] back h = rw h ([], destroy p back, refl)
destroy-Holds p k (x ∷ front) back h =
    let (f, b, e) = destroy-Holds p k front back h in
    elim (Bool-cases (p x)) [ inl d ↦ rw d (f, b, e) | inr d ↦ rw d (x ∷ f, b, ap (◌∷◌ x) e) ]

snoc-Holds : (k x : Link) (ls : List Link) → Holds k ls → Holds k (ls ++ x ∷ [])
snoc-Holds k x ls (f, b, e) =
    (f, b ++ x ∷ [], ap (λ l. l ++ x ∷ []) e ∙ append_assoc f (k ∷ b) (x ∷ []))

merge_entries-Holds :
    (version : ℕ) (entries : List ListAuthorization) (old : List Link) (es : List ListAuthorization)
    (k : Link) (ls : List Link)
    → All (λ e. e.authorization_id ≢ k.authorization_id) es
    → Holds k ls
    → Holds k (merge_entries version entries old es ls)
unfolding merge_entries
merge_entries-Holds version entries old [] k ls away h = h
merge_entries-Holds version entries old (e ∷ es) k ls away h =
    elim (Bool-cases (has_authorization version e.authorization_id entries old)) [
      | inl d ↦
          (let missed : is_link version e.authorization_id k ≡ false =
              other_link version e.authorization_id k away.0 in
            let (f, b, same) = h in
            rw d (
              merge_entries-Holds version entries old es k _ away.1 (
                snoc-Holds k _ _ (
                  subst (λ l. Holds k (destroy (is_link version e.authorization_id) l)) (sym same)
                    (destroy-Holds _ k f b missed)))))
      | inr d ↦ rw d (merge_entries-Holds version entries old es k _ away.1 (snoc-Holds k _ ls h))
    ]

-- Where a differential list is stored for a station that has a version, a link that was there is kept
-- unless its key of an entry is the key of an authorization of the list: an entry of the same
-- authorization as one of the list stays beside it.
create_or_update_differential :
    (tenant : ℕ) (station : String) (l : SentList) (t : ListTables) (v : Version)
    (es : List ListAuthorization) (k : Link)
    → find_version station t.versions ≡ some v
    → l.entries ≡ some es
    → All (λ e. e.authorization_id ≢ k.authorization_id) es
    → Holds k t.links
    → (t' : ListTables) × (create_or_update_version tenant station l differential t ≡ ok t')
      × Holds k t'.links
unfolding create_or_update_version update_version update_found
create_or_update_differential tenant station l t v es k found sent away held = (
  record t {
    versions = set_version station l.version_number t.versions;
    links = merge_entries v.id t.entries t.links es t.links;
  },
  rw (found, sent) refl,
  merge_entries-Holds v.id t.entries t.links es k t.links away held,
)
