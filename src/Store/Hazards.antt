-- ===== src/Store/Hazards.antt =====
-- internal/store/pipeline_hazards.go: the table of pipeline hazards, one row for an issue at most. The
-- statements of the database do not fail.
pub mod Upserts
use workbuddy.Prelude.{
  ℕ, String, Bool, true, false, not, ◌&&◌, ◌||◌, Option, none, some, List, [], ◌∷◌, if◌then◌else◌,
  str_eq, lookup, insert, delete, filter_by,
}
use workbuddy.Store.Keys.{IssueKey, issue_key_eq}

pub data HazardKind : Type 0 where
  no_workflow_match awaiting_status_label malformed_dependency_ref : HazardKind

unfoldable pub same_kind : HazardKind → HazardKind → Bool
same_kind no_workflow_match no_workflow_match = true
same_kind awaiting_status_label awaiting_status_label = true
same_kind malformed_dependency_ref malformed_dependency_ref = true
same_kind _ _ = false

pub record PipelineHazard : Type 0 where
  pub kind : HazardKind
  pub fingerprint : String
  pub detected_at : ℕ

abbrev pub Hazards : Type 0
Hazards = List (IssueKey × PipelineHazard)

unfoldable pub query_issue_pipeline_hazard : IssueKey → Hazards → Option PipelineHazard
query_issue_pipeline_hazard key hazards = lookup key hazards

-- What `ON CONFLICT` leaves as the time of detection.
unfoldable pub detection :
    (now : ℕ) → HazardKind → (fingerprint : String) → Option PipelineHazard → ℕ
detection now kind fingerprint none = now
detection now kind fingerprint (some h) =
    if same_kind h.kind kind && str_eq h.fingerprint fingerprint then h.detected_at else now

unfoldable pub differs : HazardKind → (fingerprint : String) → Option PipelineHazard → Bool
differs kind fingerprint none = true
differs kind fingerprint (some h) =
    not (same_kind h.kind kind) || not (str_eq h.fingerprint fingerprint)

unfoldable pub upsert_issue_pipeline_hazard :
    (now : ℕ) → IssueKey → HazardKind → (fingerprint : String) → Hazards → Bool × Hazards
upsert_issue_pipeline_hazard now key kind fingerprint hazards =
    let prev = query_issue_pipeline_hazard key hazards in
    (
      differs kind fingerprint prev,
      insert key
          (record {
            kind = kind;
            fingerprint = fingerprint;
            detected_at = detection now kind fingerprint prev;
          })
          hazards,
    )

unfoldable pub clear_issue_pipeline_hazard : IssueKey → Hazards → Hazards
clear_issue_pipeline_hazard key hazards = delete key hazards

-- The rows in the order of the table; the query sorts them by repository and issue.
unfoldable pub list_issue_pipeline_hazards : (repo : String) → Hazards → Hazards
list_issue_pipeline_hazards repo hazards =
    filter_by (λ (row : IssueKey × PipelineHazard). str_eq repo "" || str_eq row.0.repo repo)
      hazards

unfoldable pub clear_if_kind : IssueKey → HazardKind → Option PipelineHazard → Hazards → Hazards
clear_if_kind key kind none hazards = hazards
clear_if_kind key kind (some h) hazards =
    if same_kind h.kind kind then clear_issue_pipeline_hazard key hazards else hazards

-- `clearPipelineHazardIfKind` of the dependency gate, `clearHazardIfKind` of the state machine.
unfoldable pub clear_hazard_if_kind : IssueKey → HazardKind → Hazards → Hazards
clear_hazard_if_kind key kind hazards =
    clear_if_kind key kind (query_issue_pipeline_hazard key hazards) hazards
