-- ===== src/Validator/Document.antt =====
-- The policy document that the validator reads, and its construction from a target profile.
-- A section or key that the document lacks is `none`; a document of another shape makes the
-- source raise an exception.
use cft_security_agent.Prelude.{
  ℕ, String, Bool, false, ◌&&◌, ◌||◌, Option, some, none, List, [], ◌∷◌, leb, ◌==◌, nat_eq, size,
  every_char, keys,
}
use cft_security_agent.Schemas.Action.{Value}
use cft_security_agent.Schemas.Target.{TargetProfile}
use Prim.Native.Char.{code}

-- The contract of a tool; an absent key has the source's default, which is empty.
pub record Contract : Type 0 where
  pub allowed_keys : List String
  pub required_keys : List String
  pub enum_values : List (String × List Value)
  pub max_string_lengths : List (String × ℕ)
  pub string_list_parameters : List String
  pub max_list_lengths : List (String × ℕ)
  pub max_list_item_lengths : List (String × ℕ)

-- `malformed` is an entry that is not a mapping.
pub data ContractEntry : Type 0 where
  malformed : ContractEntry
  contract : Contract → ContractEntry

pub record Policy : Type 0 where
  pub version : Option ℕ
  pub allowed_targets : Option (List String)
  pub allowed_environments : Option (List String)
  pub allowed_tools : Option (List String)
  pub parameter_contracts : List (String × ContractEntry)
  pub max_iterations : Option ℕ
  pub logging_required : Option Bool

-- `PolicyValidator`: the policy with what is known of the registered targets
pub record Validator : Type 0 where
  pub policy : Policy
  pub target_environments : List (String × String)
  pub target_artifacts : List (String × List String)

-- `PolicyValidator.from_yaml`, with the document read
unfoldable pub from_document : Policy → Option TargetProfile → Validator
from_document policy none = record {
  policy = policy;
  target_environments = [];
  target_artifacts = [];
}
from_document policy (some profile) = record {
  policy = policy;
  target_environments = (profile.id, profile.environment) ∷ [];
  target_artifacts = (profile.id, keys profile.artifacts) ∷ [];
}

abbrev is_alphanumeric : ℕ → Bool
is_alphanumeric c =
    (leb b'A' c && leb c b'Z') || (leb b'a' c && leb c b'z') || (leb b'0' c && leb c b'9')

abbrev pub is_id_char : ℕ → Bool
is_id_char c = is_alphanumeric c || c == b'.' || c == b'_' || c == b':' || c == b'-'

-- the regular expression `[A-Za-z0-9][A-Za-z0-9._:-]{0,127}`, on the whole text
unfoldable pub valid_action_id : String → Bool
valid_action_id String.[] = false
valid_action_id (String.◌∷◌ c s) =
    is_alphanumeric (code c) && every_char is_id_char s && leb (size s) 127
