-- ===== src/Validator/Contract.antt =====
-- When the parameters of an action meet the contract of its tool.
use cft_security_agent.Prelude.{
  ℕ, ◌≤◌, String, ◌≡◌, ◌↔◌, ◌⊎◌, Bool, true, false, not, Option, some, none, List, [], ◌∷◌, arith,
  text_eq, nat_eq, ltb, or_default, any, keep, contains, contains_iff, In, All, Some, lookup, keys,
  length, non_empty, non_empty-sorted, size, Option-cases, inl, inr,
}
use cft_security_agent.Schemas.Action.{Value, text, scalar_beq, ActionProposal}
use cft_security_agent.Validator.Document.{Policy, Validator, Contract}
use cft_security_agent.Validator.Parameters.{
  Parameters, members, minus, is_one_of, enum_error, length_error, lengths_error, string_list,
  is_bad_item, items_error, list_error, lists_error, values_error, contract_error, contract_of,
  validate_parameters, names_artifact, is_registered, artifacts_error,
  validate_registered_artifacts,
}

-- An absent parameter meets every requirement on its value.
abbrev pub IsEnumValue : Option Value → List Value → Type 0
IsEnumValue none allowed = Unit
IsEnumValue (some v) allowed = Some (λ w. scalar_beq w v ≡ true) allowed

abbrev pub IsShortText : Option Value → ℕ → Type 0
IsShortText none max = Unit
IsShortText (some (text s)) max = size s ≤ max
IsShortText (some _) max = ⊥

-- a list of at most the given number of items, each of at most the given size unless that is 0,
-- and none of them empty or with a NUL
abbrev pub AreItems : Contract → String → Option (List String) → Type 0
AreItems c name none = ⊥
AreItems c name (some items) =
    (length items ≤ or_default (lookup name c.max_list_lengths) (length items))
    × ((or_default (lookup name c.max_list_item_lengths) 0 ≡ 0)
        ⊎ All (λ s. size s ≤ or_default (lookup name c.max_list_item_lengths) 0) items)
    × All (λ s. is_bad_item s ≡ false) items

abbrev pub IsTextList : Contract → String → Option Value → Type 0
IsTextList c name none = Unit
IsTextList c name (some v) = AreItems c name (string_list v)

pub record Meets (c : Contract) (params : Parameters) : Type 0 where
  pub known : All (λ k. In k c.allowed_keys) (keys params)
  pub complete : All (λ k. In k (keys params)) c.required_keys
  pub enums : All (λ e. IsEnumValue (lookup e.0 params) e.1) c.enum_values
  pub texts : All (λ e. IsShortText (lookup e.0 params) e.1) c.max_string_lengths
  pub lists : All (λ name. IsTextList c name (lookup name params)) c.string_list_parameters

keep_iff :
    (xs ys : List String)
    → (non_empty (keep (λ x. not (contains x ys)) xs) ≡ false) ↔ All (λ x. In x ys) xs
keep_iff [] ys = ground arith
keep_iff (x ∷ xs) ys = ground (arith, keep_iff xs ys, contains_iff x ys)

non_empty-members : (xs : List String) → non_empty (members xs) ≡ non_empty xs
non_empty-members [] = ground arith
non_empty-members (x ∷ []) = ground arith
non_empty-members (x ∷ y ∷ xs) = ground (arith, non_empty-members (y ∷ xs))

minus_iff : (xs ys : List String) → (non_empty (minus xs ys) ≡ false) ↔ All (λ x. In x ys) xs
minus_iff xs ys = rw (non_empty-sorted, non_empty-members) (keep_iff xs ys)

any_iff {ℓ} :
    {A : Type ℓ} (p : A → Bool) (xs : List A) → (any p xs ≡ true) ↔ Some (λ x. p x ≡ true) xs
any_iff p [] = ground arith
any_iff p (x ∷ xs) = ground (arith, any_iff p xs)

none_iff {ℓ} :
    {A : Type ℓ} (p : A → Bool) (xs : List A) → (any p xs ≡ false) ↔ All (λ x. p x ≡ false) xs
none_iff p [] = ground arith
none_iff p (x ∷ xs) = ground (arith, none_iff p xs)

is_one_of_iff :
    (v : Option Value) (allowed : List Value) → (is_one_of v allowed ≡ true) ↔ IsEnumValue v allowed
is_one_of_iff none allowed = ground arith
is_one_of_iff (some v) allowed = any_iff (λ w. scalar_beq w v) allowed

enum_error_iff :
    (params : Parameters) (es : List (String × List Value))
    → (enum_error params es ≡ none) ↔ All (λ e. IsEnumValue (lookup e.0 params) e.1) es
unfolding enum_error
enum_error_iff params [] = ground arith
enum_error_iff params ((name, allowed) ∷ es) =
    ground (arith, enum_error_iff params es, is_one_of_iff (lookup name params) allowed)

length_error_iff :
    (name : String) (max : ℕ) (v : Option Value)
    → (length_error name max v ≡ none) ↔ IsShortText v max
length_error_iff name max none = ground arith
length_error_iff name max (some (text s)) = ground arith
length_error_iff name max (some _) = ground arith

lengths_error_iff :
    (params : Parameters) (es : List (String × ℕ))
    → (lengths_error params es ≡ none) ↔ All (λ e. IsShortText (lookup e.0 params) e.1) es
unfolding lengths_error
lengths_error_iff params [] = ground arith
lengths_error_iff params ((name, max) ∷ es) =
    ground (arith, lengths_error_iff params es, length_error_iff name max (lookup name params))

oversize_iff :
    (limit : ℕ) (items : List String)
    → (any (λ s. ltb limit (size s)) items ≡ false) ↔ All (λ s. size s ≤ limit) items
oversize_iff limit [] = ground arith
oversize_iff limit (s ∷ ss) = ground (arith, oversize_iff limit ss)

items_error_iff :
    (c : Contract) (name : String) (items : List String)
    → (items_error c name items ≡ none) ↔ AreItems c name (some items)
unfolding items_error
items_error_iff c name items = ground (
  arith,
  oversize_iff (or_default (lookup name c.max_list_item_lengths) 0) items,
  none_iff is_bad_item items,
)

list_error_iff :
    (c : Contract) (name : String) (v : Option Value)
    → (list_error c name v ≡ none) ↔ IsTextList c name v
unfolding list_error
list_error_iff c name none = ground arith
list_error_iff c name (some v) = elim (Option-cases (string_list v)) [
  | inl e ↦ rw e (ground arith)
  | inr r ↦ rw (r.1, list_error) (items_error_iff c name r.0)
]

lists_error_iff :
    (c : Contract) (params : Parameters) (names : List String)
    → (lists_error c params names ≡ none)
      ↔ All (λ name. IsTextList c name (lookup name params)) names
unfolding lists_error
lists_error_iff c params [] = ground arith
lists_error_iff c params (name ∷ names) =
    ground (arith, lists_error_iff c params names, list_error_iff c name (lookup name params))

contract_error_iff :
    (c : Contract) (tool : String) (params : Parameters)
    → (contract_error c tool params ≡ none) ↔ Meets c params
unfolding contract_error values_error
contract_error_iff c tool params = ground (
  arith,
  minus_iff (keys params) c.allowed_keys,
  minus_iff c.required_keys (keys params),
  enum_error_iff params c.enum_values,
  lengths_error_iff params c.max_string_lengths,
  lists_error_iff c params c.string_list_parameters,
)

-- The tool has a contract, and the parameters meet it.
abbrev pub HasContract : Option Contract → Parameters → Type 0
HasContract none params = ⊥
HasContract (some c) params = Meets c params

pub validate_parameters_iff :
    (policy : Policy) (action : ActionProposal)
    → (validate_parameters policy action ≡ none)
      ↔ HasContract (contract_of (lookup action.tool policy.parameter_contracts)) action.parameters
unfolding validate_parameters
validate_parameters_iff policy action =
    elim (Option-cases (contract_of (lookup action.tool policy.parameter_contracts))) [
      | inl e ↦ rw (e, validate_parameters) (ground arith)
      | inr r ↦ rw (r.1, validate_parameters) (contract_error_iff r.0 action.tool action.parameters)
    ]

-- A parameter that names an artifact holds the id of a registered one.
abbrev pub IsTrusted : Value → List String → Type 0
IsTrusted (text s) registered = In s registered
IsTrusted _ registered = ⊥

is_registered_iff :
    (v : Value) (registered : List String)
    → (is_registered v registered ≡ true) ↔ IsTrusted v registered
is_registered_iff (text s) registered = contains_iff s registered
is_registered_iff _ registered = ground arith

abbrev pub AreTrusted : List String → Parameters → Type 0
AreTrusted registered params =
    All (λ p. (names_artifact p.0 ≡ false) ⊎ IsTrusted p.1 registered) params

artifacts_error_iff :
    (registered : List String) (params : Parameters)
    → (artifacts_error registered params ≡ none) ↔ AreTrusted registered params
unfolding artifacts_error
artifacts_error_iff registered [] = ground arith
artifacts_error_iff registered ((name, value) ∷ params) =
    ground (arith, artifacts_error_iff registered params, is_registered_iff value registered)

-- The artifacts of a target that is not registered are not checked.
abbrev pub HasTrusted : Option (List String) → Parameters → Type 0
HasTrusted none params = Unit
HasTrusted (some registered) params = AreTrusted registered params

pub registered_artifacts_iff :
    (v : Validator) (action : ActionProposal)
    → (validate_registered_artifacts v action ≡ none)
      ↔ HasTrusted (lookup action.target v.target_artifacts) action.parameters
unfolding validate_registered_artifacts
registered_artifacts_iff v action = elim (Option-cases (lookup action.target v.target_artifacts)) [
  | inl e ↦ rw (e, validate_registered_artifacts) (ground arith)
  | inr r ↦ rw (r.1, validate_registered_artifacts) (artifacts_error_iff r.0 action.parameters)
]
