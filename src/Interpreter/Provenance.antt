-- ===== src/Interpreter/Provenance.antt =====
-- All evidence that is built passes the check of its own provenance.
use cft_security_agent.Prelude.{
  String, Bool, true, false, Option, some, none, List, [], ◌∷◌, map, ◌≡◌, ◌≢◌, ◌⊎◌, arith, refl,
  ◌==◌, text_eq, is_some, Bool-cases, Option-cases, inl, inr, lookup, or_default,
}
use cft_security_agent.Schemas.Action.{Value, ActionProposal}
use cft_security_agent.Schemas.Execution.{ExecutionResult}
use cft_security_agent.Schemas.Evidence.{
  Evidence, EvidenceArtifact, Verdict, Reliability, same_texts, is_blank, provenance,
}
use cft_security_agent.Interpreter.{
  StoredRecord, Readers, artifact_of, evidence_with, build_evidence, plain_evidence,
  structured_evidence, sandbox_command_evidence, test_result, specialized_results,
  specialized_evidence, or_plain, success,
}

refs_kept :
    (refs : List String)
    → same_texts refs (map (λ (a : EvidenceArtifact). a.ref) (map artifact_of refs)) ≡ true
unfolding artifact_of
refs_kept [] = refl
refs_kept (r ∷ rs) = ground (arith, refs_kept rs, text_eq.same_iff r r)

-- a session is absent or has a name
abbrev pub IsNamed : Option String → Type 0
IsNamed none = Unit
IsNamed (some s) = s ≢ ""

named_or_absent :
    (session : Option String)
    → IsNamed session
    → (is_some session ≡ false) ⊎ (is_blank session ≡ false)
named_or_absent none h = inl refl
named_or_absent (some s) h = inr (ground (arith, h, text_eq.same_iff s ""))

-- what is built, if anything is, passes the check
abbrev pub PassesCheck : Option Evidence → Type 0
PassesCheck none = Unit
PassesCheck (some e) = provenance e ≡ true

module _ (rd : Readers) (action : ActionProposal) (execution : ExecutionResult) (refs : List String)
    (hypothesis_id : String) (session : Option String) (fresh_id : String) where
  evidence_with-provenance :
      (kind summary : String) (facts : List (String × Value)) (description : String)
      (reliability : Reliability) (verdict : Option Verdict)
      → IsNamed session
      → provenance (
          evidence_with rd action execution refs hypothesis_id session fresh_id kind summary facts
            description reliability verdict)
        ≡ true
  unfolding evidence_with provenance
  evidence_with-provenance kind summary facts description reliability verdict named = ground (
    arith,
    text_eq.same_iff action.id action.id,
    text_eq.same_iff kind kind,
    refs_kept refs,
    named_or_absent session named,
  )

  module _ (r : StoredRecord) (loaded : Bool) (named : IsNamed session) where
    plain-PassesCheck :
        PassesCheck
          (plain_evidence rd action execution refs hypothesis_id session fresh_id r loaded)
    unfolding plain_evidence test_result
    plain-PassesCheck = elim (Bool-cases loaded) [
      | inr b ↦ rw (plain_evidence, b) (evidence_with-provenance _ _ _ _ _ _ named)
      | inl b ↦ elim (Option-cases r.status) [
        | inl e ↦ rw (plain_evidence, b, e) tt
        | inr e ↦ elim (Option-cases r.exit_code) [
          | inl f ↦ rw (plain_evidence, b, e.1, f) tt
          | inr f ↦ rw (plain_evidence, b, e.1, f.1) (evidence_with-provenance _ _ _ _ _ _ named)
        ]
      ]
    ]

    structured-PassesCheck :
        (kind : String)
        → PassesCheck (
            structured_evidence rd action execution refs hypothesis_id session fresh_id r loaded
              kind)
    unfolding structured_evidence
    structured-PassesCheck kind = elim (Bool-cases (success r loaded)) [
      | inr b ↦ rw (structured_evidence, b) tt
      | inl b ↦ elim (Option-cases (rd.parse_check action.tool (or_default r.stdout ""))) [
        | inl e ↦ rw (structured_evidence, b, e) (evidence_with-provenance _ _ _ _ _ _ named)
        | inr e ↦ rw (structured_evidence, b, e.1) (evidence_with-provenance _ _ _ _ _ _ named)
      ]
    ]

    or_plain-PassesCheck :
        (o : Option Evidence)
        → PassesCheck o
        → PassesCheck (or_plain rd action execution refs hypothesis_id session fresh_id r loaded o)
    or_plain-PassesCheck none h = plain-PassesCheck
    or_plain-PassesCheck (some e) h = h

    specialized-PassesCheck :
        (kind : Option String)
        → PassesCheck (
            specialized_evidence rd action execution refs hypothesis_id session fresh_id r loaded
              kind)
    specialized-PassesCheck none = plain-PassesCheck
    specialized-PassesCheck (some kind) = or_plain-PassesCheck _ (structured-PassesCheck kind)

  -- Evidence that is built from a stored run, by whatever tool, passes the check of its provenance
  -- when the sandbox session is absent or has a name that is not empty.
  pub built_evidence_passes :
      (r : StoredRecord) (loaded : Bool)
      → IsNamed session
      → PassesCheck
          (build_evidence rd action execution refs hypothesis_id session fresh_id r loaded)
  unfolding build_evidence sandbox_command_evidence
  built_evidence_passes r loaded named = elim (Bool-cases (action.tool == "sandbox_command")) [
    | inl b ↦ rw (build_evidence, b) (evidence_with-provenance _ _ _ _ _ _ named)
    | inr b ↦
        rw (build_evidence, b)
          (specialized-PassesCheck r loaded named (lookup action.tool specialized_results))
  ]
