-- ===== src/Executor/Capabilities/Agreement.antt =====
-- The plan validator and the executor check the parameters of a command by the same rules.
use cft_security_agent.Prelude.{
  Bool, true, false, Option, some, none, ◌≡◌, ◌↔◌, arith, Option-cases, inl, inr, refl, lookup,
}
use cft_security_agent.Schemas.Action.{Value, Items, text, array, texts_of}
use cft_security_agent.Validator.Parameters.{Parameters}
use cft_security_agent.Agent.Planning.{
  items_of, argv_error, sandbox_command_error, is_lab_directory,
}
use cft_security_agent.Executor.Capabilities.{
  Checked, accepted, refused, raised, argv_problem, directory_of, sandbox_command_parameters,
  command_parameters,
}

abbrev pub is_accepted : Checked → Bool
is_accepted (accepted _) = true
is_accepted _ = false

argv_agree : (items : Items) → (argv_problem (some items) ≡ none) ↔ (argv_error items ≡ none)
unfolding argv_problem argv_error
argv_agree items = elim (Option-cases (texts_of items)) [
  | inl e ↦ rw e (ground arith)
  | inr r ↦ rw (r.1) (ground arith)
]

directory_agree : (v : Option Value) → is_accepted (directory_of v) ≡ is_lab_directory v
unfolding directory_of
directory_agree (some (text s)) = ground arith
directory_agree (some (array _)) = refl
directory_agree (some (Value.object _)) = refl
directory_agree (some _) = refl
directory_agree none = refl

command_accepted :
    (parameters : Parameters) (c : Checked)
    → is_accepted (command_parameters parameters c) ≡ is_accepted c
command_accepted parameters (accepted _) = refl
command_accepted parameters (refused _) = refl
command_accepted parameters raised = refl

-- The executor's check of the parameters of a `sandbox_command` accepts them exactly when the plan
-- validator finds no error in them.
pub commands_agree :
    (parameters : Parameters)
    → (is_accepted (sandbox_command_parameters parameters) ≡ true)
      ↔ (sandbox_command_error parameters ≡ none)
unfolding sandbox_command_parameters sandbox_command_error argv_problem
commands_agree parameters = elim (Option-cases (items_of (lookup "argv" parameters))) [
  | inl e ↦ rw (e, argv_problem) (ground arith)
  | inr r ↦ elim (Option-cases (argv_problem (some r.0))) [
    | inl p ↦
        rw (r.1, p, (argv_agree r.0).0 p)
          (ground (
            arith,
            command_accepted parameters (directory_of (lookup "cwd" parameters)),
            directory_agree (lookup "cwd" parameters),
          ))
    | inr p ↦ elim (Option-cases (argv_error r.0)) [
      | inl q ↦ ground (arith, argv_agree r.0, p.1)
      | inr q ↦ rw (r.1, p.1, q.1) (ground arith)
    ]
  ]
]
