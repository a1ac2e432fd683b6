-- ===== src/RuntimeMap/Compose.antt =====
-- executor/runtime_service_map.py: what Docker Compose says of its services, and the addresses and
-- endpoints of a profile.
use Prim.Native.String.{◌++◌}
use Prim.Native.Char.{char, code}
use package.text.Mathlib.Text.{starts_with}
use cft_security_agent.Prelude.{
  ℕ, String, Bool, true, false, not, ◌&&◌, ◌||◌, Option, some, none, List, [], ◌∷◌, if◌then◌else◌,
  ◌==◌, nat_eq, text_eq, leb, size, every_char, lookup, insert, or_default, strip, lower, includes,
  show, ◌⊎◌, inl, inr,
}
use cft_security_agent.Schemas.Target.{TargetService}
use cft_security_agent.Gate.Decision.{unique}

-- An entry of `services` in the state of a session: the keys with a text as value.
abbrev pub ComposeItem : Type 0
ComposeItem = List (String × String)

-- `ready=None` does not occur
pub record ComposeReadiness : Type 0 where
  pub is_ready : Bool
  pub diagnostic : String

abbrev is_letter_or_digit : ℕ → Bool
is_letter_or_digit c =
    (leb b'a' c && leb c b'z') || (leb b'A' c && leb c b'Z') || (leb b'0' c && leb c b'9')

abbrev is_name_char : ℕ → Bool
is_name_char c = is_letter_or_digit c || c == b'_' || c == b'-'

-- `_SERVICE_NAME`: `[a-zA-Z0-9][a-zA-Z0-9_-]{0,62}`, on the whole text
unfoldable pub is_service_name : String → Bool
is_service_name String.[] = false
is_service_name (String.◌∷◌ c s) =
    is_letter_or_digit (code c) && every_char is_name_char s && leb (size s) 62

-- `project.replace("-", "_")`
unfoldable pub underscored : String → String
underscored String.[] = ""
underscored (String.◌∷◌ c s) =
    String.◌∷◌ (if code c == b'-' then char b'_' tt else c) (underscored s)

-- `_trusted_network`, of the value of `compose_project`
unfoldable pub trusted_network : Option String → Option String
trusted_network none = none
trusted_network (some project) =
    if is_service_name (underscored project) then some (project ++ "_default") else none

-- `item.get(first) or item.get(second)`
abbrev either_key : String → String → ComposeItem → Option String
either_key first second item =
    if or_default (lookup first item) "" == "" then lookup second item else lookup first item

-- `_text`
unfoldable pub text_of : Option String → Option String
text_of none = none
text_of (some s) = let t = lower (strip s) in if t == "" then none else some t

-- `_health_from_status`
unfoldable pub health_from_status : String → Option String
health_from_status status =
    if includes "(healthy)" status
    then some "healthy"
    else if includes "(unhealthy)" status
    then some "unhealthy"
    else if includes "(starting)" status
    then some "starting"
    else none

-- `_state_from_status`
unfoldable pub state_from_status : String → Option String
state_from_status status =
    if starts_with status "up" || starts_with status "running" then some "running" else none

abbrev or_read : (String → Option String) → Option String → Option String → Option String
or_read read (some v) status = some v
or_read read none none = none
or_read read none (some status) = read status

-- Python's `str` of an optional text
abbrev python_text : Option String → String
python_text none = "None"
python_text (some s) = s

abbrev pub is_running : Option String → Bool
is_running none = false
is_running (some s) = s == "running"

-- what the state and the health of a service say, if anything
unfoldable pub readiness_of : Option String → Option String → Option ComposeReadiness
readiness_of state health =
    if not (is_running state)
    then some (record { is_ready = false; diagnostic = "Compose state is " ++ python_text state })
    else elim health [
      | none ↦ none
      | some h ↦ some (
          if h == "healthy"
          then record { is_ready = true; diagnostic = "Compose healthcheck is healthy" }
          else record { is_ready = false; diagnostic = "Compose health is " ++ h })
    ]

abbrev pub noted :
    String
    → Option ComposeReadiness
    → List (String × ComposeReadiness)
    → List (String × ComposeReadiness)
noted name none result = result
noted name (some r) result = insert name r result

abbrev status_of : ComposeItem → Option String
status_of item = text_of (either_key "Status" "status" item)

-- the variables `name`, `state_value` and `health_value`
abbrev pub name_in : ComposeItem → Option String
name_in item = either_key "Service" "service" item

abbrev pub state_in : ComposeItem → Option String
state_in item =
    or_read state_from_status (text_of (either_key "State" "state" item)) (status_of item)

abbrev pub health_in : ComposeItem → Option String
health_in item =
    or_read health_from_status (text_of (either_key "Health" "health" item)) (status_of item)

abbrev pub item_readiness : ComposeItem → Option ComposeReadiness
item_readiness item = readiness_of (state_in item) (health_in item)

abbrev pub noted_item :
    Option String
    → ComposeItem
    → List (String × ComposeReadiness)
    → List (String × ComposeReadiness)
noted_item none item result = result
noted_item (some name) item result = noted name (item_readiness item) result

-- the loop of `_compose_readiness_by_service`
unfoldable pub compose_readiness :
    List ComposeItem → List (String × ComposeReadiness) → List (String × ComposeReadiness)
compose_readiness [] result = result
compose_readiness (item ∷ items) result =
    compose_readiness items (noted_item (name_in item) item result)

-- `service.compose_service or service.id`
abbrev pub host_of : TargetService → String
host_of service =
    if or_default service.compose_service "" == ""
    then service.id
    else or_default service.compose_service ""

abbrev at_port : String → Option ℕ → String ⊎ String
at_port host none = inl "Profile has no internal sandbox port for service"
at_port host (some port) = inr ("http://" ++ (host ++ (":" ++ show port)))

-- `_sandbox_address`: the message of the `ValueError`, or the address
unfoldable pub sandbox_address : TargetService → String ⊎ String
sandbox_address service =
    if not (is_service_name (host_of service))
    then inl "Compose service name is not safe for a sandbox address"
    else at_port (host_of service) service.internal_port

abbrev own_endpoints : TargetService → List String
own_endpoints service = elim service.healthcheck [
  | none ↦ service.runtime_endpoints
  | some path ↦ path ∷ service.runtime_endpoints
]

-- `values.extend(path for path in _FALLBACK_ENDPOINTS if not values)`: the test is made for each
-- path, and `extend` adds a path before it asks for the next, so that at most the first is added
abbrev with_fallback : List String → List String
with_fallback [] = "/health/" ∷ []
with_fallback (v ∷ vs) = v ∷ vs

-- `_allowed_endpoints`
unfoldable pub allowed_endpoints : TargetService → List String
allowed_endpoints service = unique (with_fallback (own_endpoints service))
