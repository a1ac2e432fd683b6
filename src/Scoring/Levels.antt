-- ===== src/Scoring/Levels.antt =====
-- What a level of the context priority says of the architecture.
use cft_security_agent.Prelude.{
  ℕ, ◌≤◌, ◌<◌, String, ◌≡◌, ◌⊎◌, true, false, inl, inr, Bool-cases, text_eq, List, [], ◌∷◌, arith,
  lookup, non_empty, All,
}
use cft_security_agent.Schemas.Finding.{ArchitectureContext}
use cft_security_agent.Scoring.{
  points, criticality_table, authentication_table, blast_radius_table, normalize, priority_level,
  total_score, score_context_priority,
}

-- A table whose entries are bounded gives bounded points, for a name that it lacks too.
points_le :
    (bound : ℕ) (table : List (String × ℕ)) (name : String)
    → All (λ e. e.1 ≤ bound) table
    → points table name ≤ bound
unfolding points lookup
points_le bound [] name h = omega arith
points_le bound ((k, v) ∷ table) name h = ground (arith, points_le bound table name h.1)

module _ (c : ArchitectureContext) where
  criticality_le : points criticality_table (normalize c.criticality) ≤ 4
  criticality_le = points_le 4 criticality_table (normalize c.criticality) (omega arith)

  authentication_le : points authentication_table (normalize c.authentication) ≤ 2
  authentication_le = points_le 2 authentication_table (normalize c.authentication) (omega arith)

  blast_radius_le : points blast_radius_table (normalize c.blast_radius) ≤ 4
  blast_radius_le = points_le 4 blast_radius_table (normalize c.blast_radius) (omega arith)

-- For every architecture the score is at most 10 points (20 halves).
pub score_bounded : (c : ArchitectureContext) → total_score c ≤ 20
unfolding total_score
score_bounded c = ground (arith, criticality_le c, authentication_le c, blast_radius_le c)

priority_level_high : (score : ℕ) → priority_level score ≡ "HIGH" → 12 < score
unfolding priority_level
priority_level_high score h =
    ground (arith, text_eq.same_iff "LOW" "HIGH", text_eq.same_iff "MEDIUM" "HIGH")

sheltered_le :
    (c : ArchitectureContext)
    → c.public_exposure ≡ false
    → non_empty c.databases ≡ false
    → total_score c ≤ 12
unfolding total_score
sheltered_le c p d = ground (arith, criticality_le c, authentication_le c, blast_radius_le c)

-- A service reaches the level HIGH only if it is exposed publicly or has a database: the other
-- four facts together stay within MEDIUM.
pub high_needs_exposure_or_database :
    (c : ArchitectureContext)
    → (score_context_priority c).level ≡ "HIGH"
    → (c.public_exposure ≡ true) ⊎ (non_empty c.databases ≡ true)
unfolding score_context_priority
high_needs_exposure_or_database c h = elim (Bool-cases c.public_exposure) [
  | inl p ↦ inl p
  | inr p ↦ elim (Bool-cases (non_empty c.databases)) [
    | inl d ↦ inr d
    | inr d ↦ absurd (omega (arith, priority_level_high (total_score c) h, sheltered_le c p d))
  ]
]
