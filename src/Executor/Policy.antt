-- ===== src/Executor/Policy.antt =====
-- executor/sandbox_policy.py and tools/registry.py: the limits of the sandbox, and the table of
-- the tools.
use Prim.Native.String.{◌++◌}
use cft_security_agent.Prelude.{
  ℕ, String, Bool, true, false, not, ◌&&◌, Option, some, none, List, ◌==◌, text_eq, if◌then◌else◌,
  lookup, insert, is_some, keys, sorted, repr_names, contains, includes,
}

pub data Backend : Type 0 where
  process docker : Backend

pub data NetworkMode : Type 0 where
  no_network internal_bridge : NetworkMode

-- Times are in microseconds, `max_cpus` in thousandths of a processor.
pub record SandboxLimits : Type 0 where
  pub wall_time : ℕ
  pub cpu_time_seconds : ℕ
  pub memory_bytes : ℕ
  pub max_file_bytes : ℕ
  pub max_processes : ℕ
  pub max_output_bytes : ℕ
  pub tmpfs_size_bytes : ℕ
  pub umask : ℕ
  pub max_cpus : ℕ

pub record SandboxPolicy : Type 0 where
  pub backend : Backend
  pub network_mode : NetworkMode
  pub allowed_internal_network : String
  pub allowed_environments : List String
  pub limits : SandboxLimits
  pub sandbox_image : String
  pub container_user : String
  pub fail_closed : Bool

abbrev pub is_docker : Backend → Bool
is_docker docker = true
is_docker process = false

-- `__post_init__`: the message of the `ValueError`. A backend and a network mode outside the two
-- lists cannot be written here.
unfoldable pub policy_error : SandboxPolicy → Option String
policy_error p =
    if not (is_docker p.backend)
    then none
    else if p.sandbox_image == ""
    then some "Docker sandbox requires sandbox_image"
    else if not (includes "@sha256:" p.sandbox_image)
    then some "Docker sandbox image must be pinned by immutable SHA-256 digest"
    else none

-- the message of the `ValueError`
unfoldable pub validate_target_environment : SandboxPolicy → String → Option String
validate_target_environment p environment =
    if contains environment p.allowed_environments
    then none
    else some (
        "Target environment '"
        ++ (environment
            ++ ("' is blocked by security policy. Allowed environments: "
                ++ repr_names (sorted p.allowed_environments))))

-- the message of the `RuntimeError`
unfoldable pub validate_for_production : SandboxPolicy → Bool → Option String
validate_for_production p is_docker_available =
    if is_docker p.backend && (p.fail_closed && not is_docker_available)
    then some (
        "Security Boundary Failure: Docker runtime is required for secure sandbox execution, but "
        ++ "Docker is unavailable. Refusing to fall back to ProcessSandbox.")
    else none

-- `ToolRegistry`, for tools of type `T`
pub record ToolRegistry (T : Type 0) : Type 0 where
  pub tools : List (String × T)
  pub endpoints : List (String × String)

abbrev pub with_endpoint : Option String → String → List (String × String) → List (String × String)
with_endpoint none name endpoints = endpoints
with_endpoint (some e) name endpoints = insert name e endpoints

module _ {T : Type 0} where
  -- `none` stands for the `ValueError` of a name that is registered
  unfoldable pub register : ToolRegistry T → String → T → Option String → Option (ToolRegistry T)
  register r name tool endpoint =
      if is_some (lookup name r.tools)
      then none
      else some record {
        tools = insert name tool r.tools;
        endpoints = with_endpoint endpoint name r.endpoints;
      }

  -- `none` stands for the `KeyError`
  unfoldable pub get : ToolRegistry T → String → Option T
  get r name = lookup name r.tools

  unfoldable pub names : ToolRegistry T → List String
  names r = sorted (keys r.tools)

  -- `none` for the `KeyError` of `get`, and `some none` for a tool without an endpoint
  unfoldable pub endpoint_of : ToolRegistry T → String → Option (Option String)
  endpoint_of r name = if is_some (get r name) then some (lookup name r.endpoints) else none
