-- ===== src/Executor/Capabilities.antt =====
-- executor/executor.py: the capabilities, what each may reach, and the check of its parameters.
pub mod Agreement
use Prim.Native.String.{◌++◌}
use cft_security_agent.Prelude.{
  ℕ, String, Bool, true, false, not, ◌&&◌, ◌||◌, Option, some, none, List, ◌∷◌, [], ◌==◌, nat_eq,
  text_eq, if◌then◌else◌, lookup, insert, is_some, keys, any, all, ltb, size, take_chars, strip,
  contains, non_empty, repr_names, or_default, map,
}
use cft_security_agent.Schemas.Action.{Value, Items, text, array, null, texts_of}
use cft_security_agent.Validator.Parameters.{Parameters, minus}
use cft_security_agent.Agent.Planning.{keys_are, items_of, item_count, is_plain, total_size}
use cft_security_agent.Executor.Policy.{ToolRegistry, register}

pub data NetworkAccess : Type 0 where
  without_network target_network : NetworkAccess

abbrev pub reaches_target : NetworkAccess → Bool
reaches_target target_network = true
reaches_target without_network = false

abbrev pub repository_access : List (String × Bool)
repository_access =
    ("safe_noop", false)
    ∷ ("sandbox_command", true)
    ∷ ("observe_http_surface", false)
    ∷ ("inspect_dockerfile_user", true)
    ∷ ("inspect_python_password_assignment", true)
    ∷ ("inspect_react_dangerous_html_flow", true)
    ∷ []

abbrev pub network_access : List (String × NetworkAccess)
network_access =
    ("safe_noop", without_network)
    ∷ ("sandbox_command", without_network)
    ∷ ("observe_http_surface", target_network)
    ∷ ("inspect_dockerfile_user", without_network)
    ∷ ("inspect_python_password_assignment", without_network)
    ∷ ("inspect_react_dangerous_html_flow", without_network)
    ∷ []

-- what a handler of parameters does: it returns parameters, raises `CapabilityInputError`, or
-- raises another exception, which the executor does not catch
pub data Checked : Type 0 where
  accepted : Parameters → Checked
  refused : String → Checked
  raised : Checked

-- Python's `str`: a text is itself, every other value is printed by the parameter `print`.
abbrev pub str_of : (Value → String) → Value → String
str_of print (text s) = s
str_of print v = print v

module _ (print : Value → String) where
  -- `str(parameters.get(name, default))`
  abbrev str_or : Option Value → String → String
  str_or none default = default
  str_or (some v) default = str_of print v

  unfoldable pub safe_noop : Parameters → Checked
  safe_noop parameters =
      let unexpected = minus (keys parameters) ("message" ∷ "test_outcome" ∷ []) in
      let outcome = str_or (lookup "test_outcome" parameters) "confirmed" in
      let message = take_chars 256 (str_or (lookup "message" parameters) "ok") in
      if non_empty unexpected
      then refused ("Unsupported safe_noop parameters: " ++ repr_names unexpected)
      else if not (contains outcome ("confirmed" ∷ "rejected" ∷ "inconclusive" ∷ []))
      then refused "Invalid safe_noop test_outcome"
      else accepted (("message", text message) ∷ ("test_outcome", text outcome) ∷ [])

  unfoldable pub no_parameters : Parameters → Checked
  no_parameters parameters =
      if non_empty parameters
      then refused "HTTP capabilities do not accept parameters"
      else accepted []

  unfoldable pub artifact_id_parameter : Parameters → Checked
  artifact_id_parameter parameters =
      if not (keys_are ("artifact_id" ∷ []) parameters)
      then refused "Requires exactly one artifact_id parameter"
      else accepted
          (("artifact_id", text (strip (str_or (lookup "artifact_id" parameters) ""))) ∷ [])

  abbrev html_flow_keys : List String
  html_flow_keys =
      "frontend_artifact_id" ∷ "model_artifact_id" ∷ "serializer_artifact_id" ∷ "view_artifact_id"
      ∷ "field" ∷ []

  unfoldable pub react_html_flow_parameters : Parameters → Checked
  react_html_flow_parameters parameters =
      if not (keys_are html_flow_keys parameters)
      then refused "React HTML flow requires the fixed parameter set"
      else accepted
          (map (λ (k : String). (k, text (strip (str_or (lookup k parameters) "")))) html_flow_keys)

-- `none`, or the message of the first test of `argv` that fails
unfoldable pub argv_problem : Option Items → Option String
argv_problem none = some "sandbox_command argv must contain 1-32 items"
argv_problem (some items) =
    if item_count items == 0 || ltb 32 (item_count items)
    then some "sandbox_command argv must contain 1-32 items"
    else elim (texts_of items) [
      | none ↦ some "sandbox_command argv items must be non-empty strings"
      | some argv ↦
          if not (all is_plain argv)
          then some "sandbox_command argv items must be non-empty strings"
          else if any (λ s. ltb 1024 (size s)) argv || ltb 8192 (total_size argv)
          then some "sandbox_command argv exceeds bounded command size"
          else none
    ]

-- `cwd in {"/target", "/workspace"}`: a list or an object is not hashable and raises `TypeError`
unfoldable pub directory_of : Option Value → Checked
directory_of (some (text s)) =
    if s == "/target" || s == "/workspace"
    then accepted []
    else refused "sandbox_command cwd is outside the disposable lab"
directory_of (some (array _)) = raised
directory_of (some (Value.object _)) = raised
directory_of _ = refused "sandbox_command cwd is outside the disposable lab"

abbrev command_parameters : Parameters → Checked → Checked
command_parameters parameters (accepted _) = accepted (
    ("argv", or_default (lookup "argv" parameters) null)
    ∷ ("cwd", or_default (lookup "cwd" parameters) null)
    ∷ [])
command_parameters parameters c = c

unfoldable pub sandbox_command_parameters : Parameters → Checked
sandbox_command_parameters parameters =
    if not (keys_are ("argv" ∷ "cwd" ∷ []) parameters)
    then refused "sandbox_command requires exactly argv and cwd"
    else elim (argv_problem (items_of (lookup "argv" parameters))) [
      | some e ↦ refused e
      | none ↦ command_parameters parameters (directory_of (lookup "cwd" parameters))
    ]

abbrev pub Handler : Type 0
Handler = Parameters → Checked

abbrev and_register :
    Option (ToolRegistry Handler) → String → Handler → Option (ToolRegistry Handler)
and_register none name tool = none
and_register (some r) name tool = register r name tool none

-- the registrations of `SafeExecutor.__init__`, in their order, the first innermost
unfoldable pub new_registry : (Value → String) → Option (ToolRegistry Handler)
new_registry print =
    let artifact = artifact_id_parameter print in
    let r1 =
      and_register (some record { tools = []; endpoints = [] }) "safe_noop" (safe_noop print) in
    let r2 = and_register r1 "sandbox_command" sandbox_command_parameters in
    let r3 = and_register r2 "observe_http_surface" (no_parameters print) in
    let r4 = and_register r3 "inspect_dockerfile_user" artifact in
    let r5 = and_register r4 "inspect_python_password_assignment" artifact in
    and_register r5 "inspect_react_dangerous_html_flow" (react_html_flow_parameters print)
