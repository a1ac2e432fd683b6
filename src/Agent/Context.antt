-- ===== src/Agent/Context.antt =====
-- schemas/target.py: the service that a file belongs to, and the one artifact of a path or a role.
use Prim.Native.String.{◌++◌, compare}
use text.Mathlib.Text.{starts_with, is_lt}
use cft_security_agent.Prelude.{
  ℕ, String, Bool, true, ◌&&◌, ◌||◌, Option, some, none, List, [], ◌∷◌, if◌then◌else◌, contains,
  lower, ltb, ◌==◌, nat_eq, text_eq,
}
use cft_security_agent.Schemas.Target.{TargetService, TargetArtifact, TargetProfile}

-- `(depth, id)`, where the root holds the file
unfoldable pub candidate : (String → ℕ) → String → String × TargetService → Option (ℕ × String)
candidate parts path (id, service) =
    if service.root == "."
    then some (0, id)
    else if path == service.root || starts_with path (service.root ++ "/")
    then some (parts service.root, id)
    else none

-- Python's order on the pairs
unfoldable pub above : ℕ × String → ℕ × String → Bool
above (n, id) (m, id') = ltb m n || (n == m && is_lt (compare id' id))

abbrev pub higher : Option (ℕ × String) → Option (ℕ × String) → Option (ℕ × String)
higher none b = b
higher (some a) none = some a
higher (some a) (some b) = if above b a then some b else some a

-- the first of the candidates in falling order
unfoldable pub best_candidate :
    (String → ℕ) → String → List (String × TargetService) → Option (ℕ × String)
best_candidate parts path [] = none
best_candidate parts path (s ∷ ss) = higher (candidate parts path s) (best_candidate parts path ss)

abbrev id_of : Option (ℕ × String) → Option String
id_of none = none
id_of (some (depth, id)) = some id

-- `resolve_service` of a path that is normalized
unfoldable pub resolve_service : (String → ℕ) → TargetProfile → String → Option String
resolve_service parts profile path = id_of (best_candidate parts path profile.services)

abbrev only : List String → Option String
only (id ∷ []) = some id
only _ = none

abbrev kind_matches : Option String → TargetArtifact → Bool
kind_matches none a = true
kind_matches (some kind) a = lower a.kind == lower kind

abbrev artifact_ids : (TargetArtifact → Bool) → List (String × TargetArtifact) → List String
artifact_ids p [] = []
artifact_ids p ((key, a) ∷ rest) = let ids = artifact_ids p rest in if p a then a.id ∷ ids else ids

-- `artifact_id_for_path` of a path that is normalized; `none` is the `ValueError`
unfoldable pub artifact_id_for_path : TargetProfile → Option String → String → Option String
artifact_id_for_path profile kind path =
    only (artifact_ids (λ a. a.relative_path == path && kind_matches kind a) profile.artifacts)

-- `artifact_id_for_role`
unfoldable pub artifact_id_for_role : TargetProfile → String → Option String
artifact_id_for_role profile role =
    only (artifact_ids (λ a. contains role a.roles) profile.artifacts)
