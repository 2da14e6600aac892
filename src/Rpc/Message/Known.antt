-- ===== src/Rpc/Message/Known.antt =====
-- The texts of the known actions.
use Prim.Native.Char.{code}
use rexharge_citrineos_core.Prelude.{
  String, ◌≡◌, refl, Bool, true, false, not, List, [], ◌∷◌, arith, eq_iff, all, includes, str_eq,
  ◌&&◌, ◌==◌, subst, Bool-cases, inl, inr, if◌then◌else◌,
}
use rexharge_citrineos_core.Prelude.Text.{Lacks, concat}
use rexharge_citrineos_core.Rpc.Actions.{ocpp1_6_actions, ocpp2_0_1_actions}
use rexharge_citrineos_core.Rpc.Message.{
  Protocol, ocpp1_6, ocpp2_0_1, unsupported, ok, throw, plain, member, inherited, inherited_keys,
  look_up, map_action, map_to_call_action,
}

abbrev lacks_colon : String → Bool
lacks_colon String.[] = true
lacks_colon (String.◌∷◌ c s) = not (code c == b':') && lacks_colon s

lacks_colon-Lacks : (s : String) → lacks_colon s ≡ true → Lacks b':' s
lacks_colon-Lacks String.[] h = tt
lacks_colon-Lacks (String.◌∷◌ c s) h = (λ e. ground arith, lacks_colon-Lacks s (ground arith))

included :
    (p : String → Bool) (xs : List String) (s : String)
    → all p xs ≡ true
    → includes xs s ≡ true
    → p s ≡ true
included p [] s h k = ground arith
included p (x ∷ xs) s h k = elim (Bool-cases (str_eq x s)) [
  | inl same ↦ subst (λ t. p t ≡ true) ((eq_iff x s).0 same) (ground arith)
  | inr other ↦ included p xs s (ground arith) (ground arith)
]

member_of :
    (found own : Bool) (key action message : String)
    → (if found then ok (member key) else if own then ok (inherited key) else throw (plain message))
      ≡ ok (member action)
    → (found ≡ true) × (key ≡ action)
member_of true own key action message h = (refl, cc h)
member_of false true key action message h = ground arith
member_of false false key action message h = ground arith

look_up_lacks :
    (actions : List String) (name key action : String)
    → all lacks_colon actions ≡ true
    → look_up actions name key ≡ ok (member action)
    → lacks_colon action ≡ true
unfolding look_up
look_up_lacks actions name key action h k =
    let (found, same) =
      member_of (includes actions key) (includes inherited_keys key) key action
        (concat "Invalid " (concat name (concat " action: " key))) k in
    subst (λ t. lacks_colon t ≡ true) same (included lacks_colon actions key h found)

map_action_lacks :
    (protocol : Protocol) (name action : String)
    → map_action protocol name ≡ ok (member action)
    → lacks_colon action ≡ true
unfolding map_action
map_action_lacks ocpp1_6 name action h = look_up_lacks ocpp1_6_actions _ name action refl h
map_action_lacks ocpp2_0_1 name action h = look_up_lacks ocpp2_0_1_actions _ name action refl h
map_action_lacks (unsupported version) name action h = ground arith

-- The text of a known action holds no colon.
pub Lacks-map_to_call_action :
    (protocol : Protocol) (name action : String)
    → map_to_call_action protocol name ≡ ok (member action)
    → Lacks b':' action
unfolding map_to_call_action
Lacks-map_to_call_action protocol name action h =
    lacks_colon-Lacks action (map_action_lacks protocol name action (ground arith))
