-- ===== src/Schemas/Evidence.antt =====
-- schemas/evidence.py. Times of recording are left out: nothing reads them.
use cft_security_agent.Prelude.{
  String, Bool, true, false, not, ◌&&◌, Option, some, none, List, [], ◌∷◌, map, ◌==◌, text_eq,
}
use cft_security_agent.Schemas.Action.{Value}

pub data Verdict : Type 0 where
  confirmed rejected inconclusive : Verdict

pub data EvidenceSource : Type 0 where
  static runtime : EvidenceSource

pub data Reliability : Type 0 where
  high medium low unknown : Reliability

pub data ArtifactRole : Type 0 where
  execution audit source log other : ArtifactRole

pub record EvidenceAction : Type 0 where
  pub id : String
  pub tool : String
  pub run_id : Option String

pub record EvidenceObservation : Type 0 where
  pub kind : String
  pub facts : List (String × Value)

pub record EvidenceScope : Type 0 where
  pub target : String
  pub environment : String
  pub service : Option String
  pub description : String

pub record EvidenceArtifact : Type 0 where
  pub ref : String
  pub role : ArtifactRole

pub record Evidence : Type 0 where
  pub id : String
  pub action_id : String
  pub kind : String
  pub summary : String
  pub artifact_refs : List String
  pub reliability : Reliability
  pub verdict : Option Verdict
  pub source : EvidenceSource
  pub sandbox_session_id : Option String
  pub hypothesis_id : String
  pub action : EvidenceAction
  pub observation : EvidenceObservation
  pub scope : EvidenceScope
  pub artifacts : List EvidenceArtifact

abbrev pub same_texts : List String → List String → Bool
same_texts [] [] = true
same_texts (s ∷ ss) (t ∷ ts) = s == t && same_texts ss ts
same_texts _ _ = false

-- `not self.sandbox_session_id`
abbrev pub is_blank : Option String → Bool
is_blank none = true
is_blank (some s) = s == ""

abbrev is_runtime : EvidenceSource → Bool
is_runtime static = false
is_runtime runtime = true

-- `validate_provenance`: `false` stands for the `ValueError`
unfoldable pub provenance : Evidence → Bool
provenance e =
    e.action_id == e.action.id
    && e.kind == e.observation.kind
    && same_texts e.artifact_refs (map (λ (a : EvidenceArtifact). a.ref) e.artifacts)
    && not (is_runtime e.source && is_blank e.sandbox_session_id)
