-- ===== src/Validator/Parameters.antt =====
-- `_validate_parameters` and `_validate_registered_artifacts`. A pair is the reason of the refusal
-- and the rule that failed. Python visits the set of list parameters in no fixed order; here it is
-- the order of the document, which decides only the reason.
use Prim.Native.String.{◌++◌}
use cft_security_agent.Prelude.{
  ℕ, String, Bool, true, false, not, ◌&&◌, ◌||◌, Option, some, none, List, [], ◌∷◌, ltb, ◌==◌,
  nat_eq, text_eq, if◌then◌else◌, or_default, any, keep, contains, lookup, keys, length, non_empty,
  size, every_char, ends_with, show, sorted, repr_names,
}
use cft_security_agent.Schemas.Action.{Value, text, array, scalar_beq, texts_of, ActionProposal}
use cft_security_agent.Validator.Document.{Policy, Validator, Contract, ContractEntry, contract}

abbrev pub Denial : Type 0
Denial = String × String

abbrev pub Parameters : Type 0
Parameters = List (String × Value)

-- the members of a set, each once
abbrev pub members : List String → List String
members [] = []
members (x ∷ xs) = let rest = members xs in if contains x xs then rest else x ∷ rest

-- `sorted(set(xs) - set(ys))`
abbrev pub minus : List String → List String → List String
minus xs ys = sorted (members (keep (λ x. not (contains x ys)) xs))

abbrev pub is_one_of : Option Value → List Value → Bool
is_one_of none allowed = true
is_one_of (some v) allowed = any (λ w. scalar_beq w v) allowed

unfoldable pub enum_error : Parameters → List (String × List Value) → Option Denial
enum_error params [] = none
enum_error params ((name, allowed) ∷ rest) =
    let others = enum_error params rest in
    if is_one_of (lookup name params) allowed
    then others
    else some ("Invalid value for parameter '" ++ (name ++ "'"), "parameter_values_denied")

abbrev pub length_error : String → ℕ → Option Value → Option Denial
length_error name max none = none
length_error name max (some (text s)) =
    if ltb max (size s)
    then some (
      "Parameter '" ++ (name ++ ("' exceeds maximum length " ++ show max)),
      "parameter_values_denied",
    )
    else none
length_error name max (some _) =
    some ("Parameter '" ++ (name ++ "' must be a string"), "parameter_values_denied")

unfoldable pub lengths_error : Parameters → List (String × ℕ) → Option Denial
lengths_error params [] = none
lengths_error params ((name, max) ∷ rest) =
    let others = lengths_error params rest in
    elim (length_error name max (lookup name params)) [ some e ↦ some e | none ↦ others ]

-- `isinstance(value, list)` with texts only, and the texts
abbrev pub string_list : Value → Option (List String)
string_list (array items) = texts_of items
string_list _ = none

-- `not item or "\x00" in item`
abbrev pub is_bad_item : String → Bool
is_bad_item s = s == "" || not (every_char (λ c. not (c == 0)) s)

unfoldable pub items_error : Contract → String → List String → Option Denial
items_error c name items =
    let item_limit = or_default (lookup name c.max_list_item_lengths) 0 in
    if ltb (or_default (lookup name c.max_list_lengths) (length items)) (length items)
    then some ("Parameter '" ++ (name ++ "' exceeds maximum item count"), "parameter_values_denied")
    else if not (item_limit == 0) && any (λ s. ltb item_limit (size s)) items
    then some (
      "Parameter '" ++ (name ++ "' contains an item that exceeds maximum length"),
      "parameter_values_denied",
    )
    else if any is_bad_item items
    then some
        ("Parameter '" ++ (name ++ "' contains an invalid string item"), "parameter_values_denied")
    else none

unfoldable pub list_error : Contract → String → Option Value → Option Denial
list_error c name none = none
list_error c name (some v) = elim (string_list v) [
  | none ↦
      some ("Parameter '" ++ (name ++ "' must be a list of strings"), "parameter_values_denied")
  | some items ↦ items_error c name items
]

unfoldable pub lists_error : Contract → Parameters → List String → Option Denial
lists_error c params [] = none
lists_error c params (name ∷ names) =
    let others = lists_error c params names in
    elim (list_error c name (lookup name params)) [ some e ↦ some e | none ↦ others ]

-- the checks of the values, behind those of the keys
unfoldable pub values_error : Contract → Parameters → Option Denial
values_error c params = elim (enum_error params c.enum_values) [
  | some e ↦ some e
  | none ↦ elim (lengths_error params c.max_string_lengths) [
    | some e ↦ some e
    | none ↦ lists_error c params c.string_list_parameters
  ]
]

unfoldable pub contract_error : Contract → String → Parameters → Option Denial
contract_error c tool params =
    let unexpected = minus (keys params) c.allowed_keys in
    let missing = minus c.required_keys (keys params) in
    if non_empty unexpected
    then some (
      "Unsupported parameters for '" ++ (tool ++ ("': " ++ repr_names unexpected)),
      "parameters_denied",
    )
    else if non_empty missing
    then some (
      "Missing required parameters for '" ++ (tool ++ ("': " ++ repr_names missing)),
      "parameters_denied",
    )
    else values_error c params

abbrev pub contract_of : Option ContractEntry → Option Contract
contract_of (some (contract c)) = some c
contract_of _ = none

unfoldable pub validate_parameters : Policy → ActionProposal → Option Denial
validate_parameters policy action =
    elim (contract_of (lookup action.tool policy.parameter_contracts)) [
      | none ↦ some (
        "No parameter contract is defined for tool '" ++ (action.tool ++ "'"),
        "parameter_contract_denied",
      )
      | some c ↦ contract_error c action.tool action.parameters
    ]

-- `name == "artifact_id" or name.endswith("_artifact_id")`
abbrev pub names_artifact : String → Bool
names_artifact name = name == "artifact_id" || ends_with name "_artifact_id"

abbrev pub is_registered : Value → List String → Bool
is_registered (text s) registered = contains s registered
is_registered _ registered = false

unfoldable pub artifacts_error : List String → Parameters → Option Denial
artifacts_error registered [] = none
artifacts_error registered ((name, value) ∷ rest) =
    let others = artifacts_error registered rest in
    if not (names_artifact name) || is_registered value registered
    then others
    else some
        ("Unknown trusted artifact for parameter '" ++ (name ++ "'"), "target_artifact_denied")

unfoldable pub validate_registered_artifacts : Validator → ActionProposal → Option Denial
validate_registered_artifacts v action = elim (lookup action.target v.target_artifacts) [
  | none ↦ none
  | some registered ↦ artifacts_error registered action.parameters
]
