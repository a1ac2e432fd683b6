-- ===== src/Executor/Approvals.antt =====
-- executor/approvals.py: the approvals that the executor trusts. The digest of a proposal is JSON
-- and SHA-256, library code, and is the parameter `digest`.
use Prim.Native.String.{String}
use cft_security_agent.Prelude.{
  Bool, true, false, not, Option, some, none, List, ◌==◌, text_eq, if◌then◌else◌, lookup, insert,
  lookup-insert, ◌⊎◌, inl, inr, ◌≡◌, arith,
}
use cft_security_agent.Schemas.Action.{ActionProposal, ValidationResult}

pub record ApprovalRecord : Type 0 where
  pub action_id : String
  pub proposal_digest : String
  pub reason : String
  pub policy_rules : List String

-- `InMemoryApprovalStore._records`
abbrev pub ApprovalStore : Type 0
ApprovalStore = List (String × ApprovalRecord)

module _ (digest : ActionProposal → String) where
  abbrev approval_of : ActionProposal → ValidationResult → ApprovalRecord
  approval_of action validation = record {
    action_id = action.id;
    proposal_digest = digest action;
    reason = validation.reason;
    policy_rules = validation.policy_rules;
  }

  -- `record`: the message of the `ValueError`, or the record with the new store
  unfoldable pub record_approval :
      ActionProposal → ValidationResult → ApprovalStore → String ⊎ (ApprovalRecord × ApprovalStore)
  record_approval action validation records =
      if not validation.approved
      then inl "Denied ValidationResult cannot create an approval"
      else if not (validation.action_id == action.id)
      then inl "ValidationResult does not match ActionProposal"
      else inr
          (approval_of action validation, insert action.id (approval_of action validation) records)

  -- the verdict on the record that was found
  unfoldable pub verdict_on : ActionProposal → Option ApprovalRecord → Bool × String
  verdict_on action none = (false, "No trusted approval exists for this action")
  verdict_on action (some r) =
      if not (r.proposal_digest == digest action)
      then (false, "ActionProposal changed after approval")
      else (true, "Approved proposal digest matches")

  unfoldable pub check : ActionProposal → ApprovalStore → Bool × String
  check action records = verdict_on action (lookup action.id records)

  recorded :
      (a : ActionProposal) (v : ValidationResult) (records : ApprovalStore)
      (result : ApprovalRecord × ApprovalStore)
      → record_approval a v records ≡ inr result
      → (v.approved ≡ true)
        × (v.action_id ≡ a.id)
        × (result.1 ≡ insert a.id (approval_of a v) records)
  unfolding record_approval
  recorded a v records result h = ground (arith, text_eq.same_iff v.action_id a.id)

  -- After a recorded approval, an action with the same id passes exactly when its digest is the
  -- one that was approved, and every other action is checked as before.
  pub record-check :
      (a b : ActionProposal) (v : ValidationResult) (records : ApprovalStore)
      (result : ApprovalRecord × ApprovalStore)
      → record_approval a v records ≡ inr result
      → check b (result.1) ≡ (
          if a.id == b.id
          then if digest a == digest b
            then (true, "Approved proposal digest matches")
            else (false, "ActionProposal changed after approval")
          else check b records)
  unfolding check verdict_on
  record-check a b v records result h =
      rw ((recorded a v records result h).2, lookup-insert a.id b.id (approval_of a v) records)
        (ground (arith, verdict_on))
