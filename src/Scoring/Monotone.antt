-- ===== src/Scoring/Monotone.antt =====
-- More risk in the architecture never lowers its priority.
use cft_security_agent.Prelude.{
  ℕ, ◌≤◌, String, ◌≡◌, true, arith, nat_eq, ◌==◌, text_eq, if◌then◌else◌, non_empty, leb, inl, inr,
  Bool-cases,
}
use cft_security_agent.Schemas.Finding.{ArchitectureContext}
use cft_security_agent.Scoring.{
  points, criticality_table, authentication_table, blast_radius_table, normalize, priority_level,
  total_score, score_context_priority,
}

-- `d` is at least as exposed as `c`, fact by fact.
pub record AtLeast (c d : ArchitectureContext) : Type 0 where
  pub exposure : c.public_exposure ≡ true → d.public_exposure ≡ true
  pub databases : non_empty c.databases ≡ true → non_empty d.databases ≡ true
  pub critical_paths : non_empty c.critical_paths ≡ true → non_empty d.critical_paths ≡ true
  pub criticality :
      points criticality_table (normalize c.criticality)
      ≤ points criticality_table (normalize d.criticality)
  pub authentication :
      points authentication_table (normalize c.authentication)
      ≤ points authentication_table (normalize d.authentication)
  pub blast_radius :
      points blast_radius_table (normalize c.blast_radius)
      ≤ points blast_radius_table (normalize d.blast_radius)

abbrev pub level_rank : String → ℕ
level_rank level = if level == "LOW" then 0 else if level == "MEDIUM" then 1 else 2

total_score_mono : (c d : ArchitectureContext) → AtLeast c d → total_score c ≤ total_score d
unfolding total_score
total_score_mono c d h = ground arith

level_rank-priority_level :
    (n : ℕ) → level_rank (priority_level n) ≡ (if leb n 6 then 0 else if leb n 12 then 1 else 2)
unfolding priority_level
level_rank-priority_level n = elim (Bool-cases (leb n 6)) [
  | inl p ↦ rw p
  | inr p ↦ elim (Bool-cases (leb n 12)) [ inl q ↦ rw (p, q) | inr q ↦ rw (p, q) ]
]

level_rank_mono : (n m : ℕ) → n ≤ m → level_rank (priority_level n) ≤ level_rank (priority_level m)
level_rank_mono n m h = ground (arith, level_rank-priority_level n, level_rank-priority_level m)

-- If every fact of one architecture weighs at least what it weighs in another, its level is not
-- lower.
pub level_monotone :
    (c d : ArchitectureContext)
    → AtLeast c d
    → level_rank (score_context_priority c).level ≤ level_rank (score_context_priority d).level
unfolding score_context_priority
level_monotone c d h = level_rank_mono (total_score c) (total_score d) (total_score_mono c d h)
