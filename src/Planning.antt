-- ===== src/Planning.antt =====
-- apps/worker-ml/src/worker_ml/runtime/planning.py: the job types, and the passes of MlJobPlanner
-- that find missing work and enqueue it.
pub mod Tables
pub mod Queries
pub mod Passes
pub mod Missing
pub mod Refresh
pub mod Ensured
pub mod Ensuring
use shkandal.Prelude.{String, List, [], ◌∷◌}

abbrev pub classify_article_job : String
classify_article_job = "classify_article"

abbrev pub gate_article_job : String
gate_article_job = "gate_article"

abbrev pub create_article_card_job : String
create_article_card_job = "create_article_card"

abbrev pub resolve_article_cases_job : String
resolve_article_cases_job = "resolve_article_cases"

abbrev pub resolve_article_entities_job : String
resolve_article_entities_job = "resolve_article_entities"

abbrev pub resolve_article_events_job : String
resolve_article_events_job = "resolve_article_events"

abbrev pub refresh_case_job : String
refresh_case_job = "refresh_case"

abbrev pub audit_case_coherence_job : String
audit_case_coherence_job = "audit_case_coherence"

abbrev pub audit_case_public_interest_job : String
audit_case_public_interest_job = "audit_case_public_interest"

abbrev pub audit_case_duplicates_job : String
audit_case_duplicates_job = "audit_case_duplicates"

abbrev pub supported_job_types : List String
supported_job_types =
    classify_article_job ∷ gate_article_job ∷ create_article_card_job ∷ resolve_article_cases_job
    ∷ resolve_article_entities_job ∷ resolve_article_events_job ∷ refresh_case_job
    ∷ audit_case_coherence_job ∷ audit_case_public_interest_job ∷ audit_case_duplicates_job ∷ []

abbrev pub job_type_schedule : List String
job_type_schedule =
    gate_article_job ∷ create_article_card_job ∷ refresh_case_job ∷ audit_case_coherence_job
    ∷ audit_case_public_interest_job ∷ audit_case_duplicates_job ∷ resolve_article_cases_job
    ∷ resolve_article_entities_job ∷ resolve_article_events_job ∷ classify_article_job ∷ []
