-- ===== src/Schemas/Action.antt =====
-- schemas/action.py and schemas/validation.py, with the values that a `dict` of parameters holds.
-- Floats do not occur among the values: no parameter contract of the policy takes one.
use cft_security_agent.Prelude.{
  ℕ, String, Bool, true, false, Option, some, none, List, [], ◌∷◌, ◌==◌, nat_eq, text_eq,
}

mutual
  pub data Value : Type 0 where
    null : Value
    boolean : Bool → Value
    pos negsuc : ℕ → Value
    text : String → Value
    array : Items → Value
    object : Fields → Value

  pub data Items : Type 0 where
    no_items : Items
    item : (first : Value) (rest : Items) → Items

  pub data Fields : Type 0 where
    no_fields : Fields
    entry : (key : String) (value : Value) (rest : Fields) → Fields

-- Python's `==` on scalars: `True` and `False` equal the numbers 1 and 0.
abbrev pub scalar_beq : Value → Value → Bool
scalar_beq null null = true
scalar_beq (boolean true) (boolean true) = true
scalar_beq (boolean false) (boolean false) = true
scalar_beq (boolean true) (pos n) = n == 1
scalar_beq (boolean false) (pos n) = n == 0
scalar_beq (pos n) (boolean true) = n == 1
scalar_beq (pos n) (boolean false) = n == 0
scalar_beq (pos n) (pos m) = n == m
scalar_beq (negsuc n) (negsuc m) = n == m
scalar_beq (text s) (text t) = s == t
scalar_beq _ _ = false

-- `[item for item in value]`, where each item is a text
abbrev pub texts_of : Items → Option (List String)
texts_of no_items = some []
texts_of (item (text s) rest) = elim (texts_of rest) [ none ↦ none | some ss ↦ some (s ∷ ss) ]
texts_of (item _ rest) = none

pub record ActionProposal : Type 0 where
  pub id : String
  pub tool : String
  pub target : String
  pub environment : String
  pub iteration : ℕ
  pub parameters : List (String × Value)
  pub purpose : String
  pub expected_evidence : String
  pub service : Option String
  pub endpoint : Option String

pub record ValidationResult : Type 0 where
  pub approved : Bool
  pub action_id : String
  pub reason : String
  pub policy_rules : List String
