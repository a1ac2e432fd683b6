-- ===== src/Examples/ScoringExamples.antt =====
-- scoring/service.py and security/error_redaction.py at concrete inputs.
use cft_security_agent.Prelude.{
  ◌≤◌, ◌≡◌, ◌⊎◌, refl, true, false, some, none, [], ◌∷◌, arith, size, non_empty, lower, strip,
  lookup, join, words, take_chars,
}
use cft_security_agent.Schemas.Finding.{ArchitectureContext}
use cft_security_agent.Redaction.{Patterns, redact_error_message, without_traceback, substitute}
use cft_security_agent.Redaction.Bounds.{size-redact_error_message}
use cft_security_agent.Scoring.{score_context_priority, total_score, points, normalize}
use cft_security_agent.Scoring.Levels.{score_bounded, high_needs_exposure_or_database}
use cft_security_agent.Scoring.Monotone.{AtLeast, level_rank, level_monotone}

abbrev unchanged : Patterns
unchanged = record {
  basic_auth_url = λ s. s;
  bearer = λ s. s;
  json_secret = λ s. s;
  key_value_secret = λ s. s;
  posix_home = λ s. s;
  windows_home = λ s. s;
}

redacts : redact_error_message unchanged "boom  here" 8 ≡ some "boom ..."
unfolding redact_error_message without_traceback substitute words join take_chars
redacts = refl

size-redact_error_message_example : size "boom ..." ≤ 8
size-redact_error_message_example =
    size-redact_error_message unchanged "boom  here" 8 "boom ..." redacts

abbrev shop : ArchitectureContext
shop = record {
  service = "shop";
  public_exposure = true;
  criticality = " High ";
  trust_zone = none;
  connected_services = [];
  databases = "orders" ∷ [];
  critical_paths = "checkout" ∷ [];
  authentication = "user";
  blast_radius = "limited";
}

abbrev hidden_shop : ArchitectureContext
hidden_shop = record shop { public_exposure = false }

shop_is_high : (score_context_priority shop).level ≡ "HIGH"
unfolding score_context_priority points normalize strip lower lookup
shop_is_high = refl

score_bounded_example : total_score shop ≤ 20
score_bounded_example = score_bounded shop

high_needs_exposure_or_database_example :
    (shop.public_exposure ≡ true) ⊎ (non_empty shop.databases ≡ true)
high_needs_exposure_or_database_example = high_needs_exposure_or_database shop shop_is_high

shop-AtLeast : AtLeast hidden_shop shop
shop-AtLeast = record {
  exposure = λ h. refl;
  databases = λ h. h;
  critical_paths = λ h. h;
  criticality = omega arith;
  authentication = omega arith;
  blast_radius = omega arith;
}

level_monotone_example :
    level_rank (score_context_priority hidden_shop).level
    ≤ level_rank (score_context_priority shop).level
level_monotone_example = level_monotone hidden_shop shop shop-AtLeast
