-- ===== src/Authorization/Driver/Offers.antt =====
-- Which EVSEs are left of those that an authorization restricts.
use rexharge_citrineos_core.Prelude.{
  ℕ, String, ◌≡◌, ◌↔◌, ◌∙◌, refl, sym, ap, Option, none, some, Bool, true, false, not, ◌&&◌, ◌||◌,
  List, [], ◌∷◌, ◌++◌, any, includes, is_some, str_eq, arith, if◌then◌else◌, Bool-cases,
  Option-cases, inl, inr,
}
use text.Mathlib.Text.{starts_with}
use rexharge_citrineos_core.Authorization.{Authorization}
use rexharge_citrineos_core.Authorization.Mapping.{AuthorizationStatusEnum}
use rexharge_citrineos_core.Authorization.Driver.{
  VariableAttribute, CertificateStatus, Station, authorize_response, same_evse, has_evse, add_evse,
  delete_evse, index_of, is_allowed_type, collect_connectors, narrow_evses, typed_evses,
  narrowed_evses, offer, check_evses, is_empty_set,
}

-- A type that is allowed, but does not stand first.
abbrev pub is_later : List String → String → Bool
is_later [] s = false
is_later (t ∷ ts) s = not (str_eq t s) && includes ts s

abbrev pub has_prefix : List String → VariableAttribute → Bool
has_prefix prefixes v = any (starts_with v.value) prefixes

-- Some connector of the EVSE has an allowed type that does not stand first.
abbrev pub fits_type : List String → Option ℕ → List VariableAttribute → Bool
fits_type types e vs = any (λ v. is_later types v.value && same_evse e v.evse) vs

-- Some name of the EVSE has one of the prefixes.
abbrev pub has_prefixed : List String → Option ℕ → List VariableAttribute → Bool
has_prefixed prefixes e vs = any (λ v. has_prefix prefixes v && same_evse e v.evse) vs

-- Every name of the EVSE has one of the prefixes.
abbrev pub all_prefixed : List String → Option ℕ → List VariableAttribute → Bool
all_prefixed prefixes e vs = not (any (λ v. not (has_prefix prefixes v) && same_evse e v.evse) vs)

same_sound : (e f : Option ℕ) → same_evse e f ≡ true → e ≡ f
unfolding same_evse
same_sound none none h = refl
same_sound none (some j) h = ground arith
same_sound (some i) none h = ground arith
same_sound (some i) (some j) h = ap some (ground arith)

same_self : (e : Option ℕ) → same_evse e e ≡ true
unfolding same_evse
same_self none = refl
same_self (some i) = ground arith

same_sym : (e f : Option ℕ) → same_evse e f ≡ same_evse f e
unfolding same_evse
same_sym none none = refl
same_sym none (some j) = refl
same_sym (some i) none = refl
same_sym (some i) (some j) = ground arith

has-append :
    (e : Option ℕ) (s t : List (Option ℕ)) → has_evse e (s ++ t) ≡ (has_evse e s || has_evse e t)
has-append e [] t = refl
has-append e (f ∷ s) t = ground (arith, has-append e s t)

has-add :
    (e f : Option ℕ) (s : List (Option ℕ))
    → has_evse e (add_evse f s) ≡ (has_evse e s || same_evse e f)
unfolding add_evse
has-add e f s = elim (Bool-cases (has_evse f s)) [
  | inl h ↦ rw h (elim (Bool-cases (same_evse e f)) [
    | inl k ↦
        let there : has_evse e s ≡ true = ap (λ g. has_evse g s) (same_sound e f k) ∙ h in
        ground arith
    | inr k ↦ ground arith
  ])
  | inr h ↦ rw h (ground (arith, has-append e s (f ∷ [])))
]

has-delete :
    (e f : Option ℕ) (s : List (Option ℕ))
    → has_evse e (delete_evse f s) ≡ (has_evse e s && not (same_evse e f))
unfolding delete_evse
has-delete e f [] = refl
has-delete e f (x ∷ s) = elim (Bool-cases (same_evse f x)) [
  | inl h ↦
      let same : same_evse e x ≡ same_evse e f = ap (same_evse e) (sym (same_sound f x h)) in
      ground (arith, has-delete e f s)
  | inr h ↦ elim (Bool-cases (same_evse e x)) [
    | inl k ↦
        let other : same_evse e f ≡ false =
          same_sym e f ∙ ap (same_evse f) (same_sound e x k) ∙ h in
        ground (arith, has-delete e f s)
    | inr k ↦ ground (arith, has-delete e f s)
  ]
]

index_of-includes : (s : String) (ts : List String) → is_some (index_of s ts) ≡ includes ts s
unfolding index_of
index_of-includes s [] = refl
index_of-includes s (t ∷ ts) = elim (Bool-cases (str_eq t s)) [
  | inl h ↦ rw h refl
  | inr h ↦ elim (Option-cases (index_of s ts)) [
    | inl k ↦ rw (h, k) (ap is_some (sym k) ∙ index_of-includes s ts)
    | inr (i, k) ↦ rw (h, k) (ap is_some (sym k) ∙ index_of-includes s ts)
  ]
]

allowed_later : (types : List String) (s : String) → is_allowed_type types s ≡ is_later types s
unfolding is_allowed_type index_of
allowed_later [] s = refl
allowed_later (t ∷ ts) s = elim (Option-cases (index_of s ts)) [
  | inl k ↦ ground (arith, k, ap is_some (sym k) ∙ index_of-includes s ts)
  | inr (i, k) ↦ ground (arith, k, ap is_some (sym k) ∙ index_of-includes s ts)
]

has-collect :
    (e : Option ℕ) (types : List String) (vs : List VariableAttribute) (s : List (Option ℕ))
    → has_evse e (collect_connectors types vs s) ≡ (has_evse e s || fits_type types e vs)
unfolding collect_connectors
has-collect e types [] s = ground arith
has-collect e types (v ∷ vs) s = elim (Bool-cases (is_allowed_type types v.value)) [
  | inl h ↦
      let later : is_later types v.value ≡ true = sym (allowed_later types v.value) ∙ h in
      rw h (ground (arith, has-collect e types vs (add_evse v.evse s), has-add e v.evse s))
  | inr h ↦
      let first : is_later types v.value ≡ false = sym (allowed_later types v.value) ∙ h in
      rw h (ground (arith, has-collect e types vs s))
]

has-narrow_typed :
    (e : Option ℕ) (prefixes : List String) (vs : List VariableAttribute) (s : List (Option ℕ))
    → has_evse e (narrow_evses true prefixes vs s) ≡ (has_evse e s && all_prefixed prefixes e vs)
unfolding narrow_evses
has-narrow_typed e prefixes [] s = ground arith
has-narrow_typed e prefixes (v ∷ vs) s = elim (Bool-cases (has_prefix prefixes v)) [
  | inl h ↦ rw h (ground (arith, has-narrow_typed e prefixes vs s))
  | inr h ↦
      rw h (
        ground
          (arith, has-narrow_typed e prefixes vs (delete_evse v.evse s), has-delete e v.evse s))
]

has-narrow_untyped :
    (e : Option ℕ) (prefixes : List String) (vs : List VariableAttribute) (s : List (Option ℕ))
    → has_evse e (narrow_evses false prefixes vs s) ≡ (has_evse e s || has_prefixed prefixes e vs)
unfolding narrow_evses
has-narrow_untyped e prefixes [] s = ground arith
has-narrow_untyped e prefixes (v ∷ vs) s = elim (Bool-cases (has_prefix prefixes v)) [
  | inl h ↦
      rw h
        (ground (arith, has-narrow_untyped e prefixes vs (add_evse v.evse s), has-add e v.evse s))
  | inr h ↦ rw h (ground (arith, has-narrow_untyped e prefixes vs s))
]

-- What is left of the EVSEs of a station for the types and the prefixes of an authorization, where it has
-- them. With types there is an EVSE of which some connector has an allowed type that does not stand
-- first, and, with prefixes as well, of which every name has one of them; with prefixes only there is
-- an EVSE of which some name has one of them.
abbrev pub LeavesEvse :
    List VariableAttribute
    → List VariableAttribute
    → Option (List String)
    → Option (List String)
    → Type 0
LeavesEvse connectors names none none = Unit
LeavesEvse connectors names none (some prefixes) =
    (e : Option ℕ) × (has_prefixed prefixes e names ≡ true)
LeavesEvse connectors names (some types) none =
    (e : Option ℕ) × (fits_type types e connectors ≡ true)
LeavesEvse connectors names (some types) (some prefixes) =
    (e : Option ℕ) × (fits_type types e connectors ≡ true) × (all_prefixed prefixes e names ≡ true)

-- Something is in a set.
abbrev HasAny : List (Option ℕ) → Type 0
HasAny s = (e : Option ℕ) × (has_evse e s ≡ true)

offer_iff :
    (s : List (Option ℕ)) (c : Option CertificateStatus)
    → ((offer (some s) c).status ≡ AuthorizationStatusEnum.accepted) ↔ HasAny s
unfolding offer
offer_iff [] c = (λ h. ground arith, λ (e, h). ground arith)
offer_iff (e ∷ s) c = (λ h. (e, ground (arith, same_self e)), λ h. refl)

typed_iff :
    (s t : List (Option ℕ)) (c : Option CertificateStatus)
    → (HasAny t → HasAny s)
    → ((if is_empty_set (some s)
          then authorize_response AuthorizationStatusEnum.not_allowed_type_evse c []
          else offer (some t) c).status
        ≡ AuthorizationStatusEnum.accepted)
      ↔ HasAny t
typed_iff [] t c sub = (λ h. ground arith, λ h. let (e, k) = sub h in ground arith)
typed_iff (e ∷ s) t c sub = offer_iff t c

kept_typed :
    (e : Option ℕ) (prefixes : List String) (vs : List VariableAttribute) (s : List (Option ℕ))
    → has_evse e (narrow_evses true prefixes vs s) ≡ true
    → (has_evse e s ≡ true) × (all_prefixed prefixes e vs ≡ true)
kept_typed e prefixes vs s h =
    let both : (has_evse e s && all_prefixed prefixes e vs) ≡ true =
      sym (has-narrow_typed e prefixes vs s) ∙ h in
    (ground arith, ground arith)

pub check_evses_iff :
    (station : Station) (a : Authorization) (c : Option CertificateStatus)
    (types prefixes : Option (List String))
    → a.allowed_connector_types ≡ types
    → a.disallowed_evse_id_prefixes ≡ prefixes
    → ((check_evses station a c).status ≡ AuthorizationStatusEnum.accepted)
      ↔ LeavesEvse station.connector_types station.evse_ids types prefixes
unfolding check_evses typed_evses narrowed_evses
check_evses_iff station a c none none t p = rw (t, p) (λ h. tt, λ h. refl)
check_evses_iff station a c none (some prefixes) t p =
    rw (t, p)
      (
        λ h.
            let (e, k) = (offer_iff _ c).0 h in
            (e, sym (has-narrow_untyped e prefixes station.evse_ids []) ∙ k),
        λ (e, k). (offer_iff _ c).1 (e, has-narrow_untyped e prefixes station.evse_ids [] ∙ k),
      )
check_evses_iff station a c (some types) none t p =
    rw (t, p)
      (
        λ h.
            let (e, k) = (typed_iff _ _ c (λ u. u)).0 h in
            (e, sym (has-collect e types station.connector_types []) ∙ k),
        λ (e, k).
            (typed_iff _ _ c (λ u. u)).1 (e, has-collect e types station.connector_types [] ∙ k),
      )
check_evses_iff station a c (some types) (some prefixes) t p =
    rw (t, p)
      (
        λ h.
            let (e, k) = (typed_iff _ _ c sub).0 h in
            let (typed, named) = kept_typed e prefixes station.evse_ids _ k in
            (e, sym (has-collect e types station.connector_types []) ∙ typed, named),
        λ (e, typed, named).
            let collected = has-collect e types station.connector_types [] ∙ typed in
            (typed_iff _ _ c sub).1 (
              e,
              has-narrow_typed e prefixes station.evse_ids _ ∙ ground (arith, collected, named),
            ),
      )
  where
    sub :
        HasAny (
          narrow_evses true prefixes station.evse_ids
            (collect_connectors types station.connector_types []))
        → HasAny (collect_connectors types station.connector_types [])
    sub (e, k) = (e, (kept_typed e prefixes station.evse_ids _ k).0)
