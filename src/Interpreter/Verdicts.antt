-- ===== src/Interpreter/Verdicts.antt =====
-- Where a verdict comes from.
use cft_security_agent.Prelude.{
  ℕ, String, Bool, true, false, Option, some, none, List, ◌≡◌, subst, ◌↔◌, arith, refl, sym, ◌∙◌,
  ◌==◌, text_eq, nat_eq, Bool-cases, Option-cases, inl, inr, lookup, or_default,
}
use mathlib.Core.Option.{some-injective}
use cft_security_agent.Schemas.Action.{ActionProposal}
use cft_security_agent.Schemas.Execution.{ExecutionResult}
use cft_security_agent.Schemas.Evidence.{Evidence, Verdict, confirmed, rejected}
use cft_security_agent.Interpreter.{
  StoredRecord, CheckResult, Readers, evidence_with, build_evidence, plain_evidence,
  structured_evidence, sandbox_command_evidence, test_result, specialized_results, or_plain,
  success,
}

-- a verdict that ends the agent
abbrev pub is_terminal : Option Verdict → Bool
is_terminal (some confirmed) = true
is_terminal (some rejected) = true
is_terminal _ = false

abbrev pub claims : Option Evidence → Bool
claims none = false
claims (some e) = is_terminal e.verdict

status_iff :
    (s : Option String) → ((or_default s "None" == "completed") ≡ true) ↔ (s ≡ some "completed")
status_iff none = ground (arith, text_eq.same_iff "None" "completed")
status_iff (some s) = ground (arith, text_eq.same_iff s "completed")

exit_iff : (n : Option ℕ) → ((or_default n 1 == 0) ≡ true) ↔ (n ≡ some 0)
exit_iff none = ground (arith, nat_eq.same_iff 1 0)
exit_iff (some n) = ground (arith, nat_eq.same_iff n 0)

module _ (rd : Readers) (action : ActionProposal) (execution : ExecutionResult) (refs : List String)
    (hypothesis_id : String) (session : Option String) (fresh_id : String) (r : StoredRecord)
    (loaded : Bool) where
  -- The tool is one with a parser, its stored run succeeded, and its parsed output has the verdict.
  pub record IsProven : Type 0 where
    pub kind : String
    pub specialized : lookup action.tool specialized_results ≡ some kind
    pub status : r.status ≡ some "completed"
    pub exit_code : r.exit_code ≡ some 0
    pub is_loaded : loaded ≡ true
    pub result : CheckResult
    pub parsed : rd.parse_check action.tool (or_default r.stdout "") ≡ some result
    pub verdict : is_terminal (some result.verdict) ≡ true

  plain_claims :
      claims (plain_evidence rd action execution refs hypothesis_id session fresh_id r loaded)
      ≡ false
  unfolding plain_evidence test_result evidence_with
  plain_claims = elim (Bool-cases loaded) [
    | inr b ↦ rw (plain_evidence, b) refl
    | inl b ↦ elim (Option-cases r.status) [
      | inl e ↦ rw (plain_evidence, b, e) refl
      | inr e ↦ elim (Option-cases r.exit_code) [
        | inl f ↦ rw (plain_evidence, b, e.1, f) refl
        | inr f ↦ rw (plain_evidence, b, e.1, f.1) refl
      ]
    ]
  ]

  success_iff :
      (success r loaded ≡ true)
      ↔ ((r.status ≡ some "completed") × (r.exit_code ≡ some 0) × (loaded ≡ true))
  success_iff = ground (arith, status_iff r.status, exit_iff r.exit_code)

  structured_claims_iff :
      (kind : String)
      → lookup action.tool specialized_results ≡ some kind
      → (claims (
            or_plain rd action execution refs hypothesis_id session fresh_id r loaded (
              structured_evidence rd action execution refs hypothesis_id session fresh_id r loaded
                kind))
          ≡ true)
        ↔ IsProven
  unfolding structured_evidence evidence_with
  structured_claims_iff kind known = elim (Bool-cases (success r loaded)) [
    | inr b ↦
        rw (structured_evidence, b)
          (
            λ h. absurd (ground (arith, plain_claims, h)),
            λ p. ground (arith, success_iff, b, p.status, p.exit_code, p.is_loaded),
          )
    | inl b ↦ elim (Option-cases (rd.parse_check action.tool (or_default r.stdout ""))) [
      | inl e ↦
          rw (structured_evidence, b, e)
            (λ h. absurd (ground (arith, h)), λ p. ground (arith, e, p.parsed))
      | inr e ↦
          rw (structured_evidence, b, e.1)
            (
              λ h. record {
                kind = kind;
                specialized = known;
                status = (success_iff.0 b).0;
                exit_code = (success_iff.0 b).1;
                is_loaded = (success_iff.0 b).2;
                result = e.0;
                parsed = e.1;
                verdict = h;
              },
              λ p.
                  subst (λ (q : CheckResult). is_terminal (some q.verdict) ≡ true)
                    (some-injective _ _ (sym (p.parsed) ∙ e.1)) p.verdict,
            )
    ]
  ]

  command_not_specialized :
      action.tool ≡ "sandbox_command" → lookup action.tool specialized_results ≡ none
  unfolding lookup
  command_not_specialized e = rw e refl

  -- Evidence confirms or rejects exactly when its tool is one of the three with a parser, the stored
  -- record was loaded and says that the run completed with exit code 0, and the parsed output
  -- confirms or rejects.
  pub claims_iff_IsProven :
      (claims (build_evidence rd action execution refs hypothesis_id session fresh_id r loaded)
        ≡ true)
      ↔ IsProven
  unfolding build_evidence sandbox_command_evidence evidence_with
  claims_iff_IsProven = elim (Bool-cases (action.tool == "sandbox_command")) [
    | inl b ↦
        rw (build_evidence, b)
          (
            λ h. absurd (ground (arith, h)),
            λ p. ground (
              arith,
              text_eq.same_iff action.tool "sandbox_command",
              b,
              command_not_specialized,
              p.specialized,
            ),
          )
    | inr b ↦ elim (Option-cases (lookup action.tool specialized_results)) [
      | inl e ↦
          rw (build_evidence, b, e)
            (λ h. absurd (ground (arith, plain_claims, h)), λ p. ground (arith, e, p.specialized))
      | inr e ↦ rw (build_evidence, b, e.1) (structured_claims_iff e.0 (e.1))
    ]
  ]
