-- ===== src/Store/Hazards/Upserts.antt =====
-- When a hazard counts as new (internal/store/pipeline_hazards.go).
use workbuddy.Prelude.{
  ℕ, String, ◌≡◌, ◌↔◌, refl, sym, ◌∙◌, inl, inr, true, false, Option, none, some, Bool-cases,
  str_eq_iff, arith, lookup, lookup-insert, ap,
}
use workbuddy.Store.Keys.{IssueKey, issue_key_eq, key_eq, key_eq_iff}
use workbuddy.Store.Hazards.{
  HazardKind, same_kind, PipelineHazard, Hazards, detection, differs, upsert_issue_pipeline_hazard,
  query_issue_pipeline_hazard,
}

pub same_kind_iff : (a b : HazardKind) → (same_kind a b ≡ true) ↔ (a ≡ b)
unfolding same_kind
same_kind_iff a b = ground arith

unchanged :
    (now : ℕ) (kind : HazardKind) (fingerprint : String) (o : Option PipelineHazard)
    → differs kind fingerprint o ≡ false
    → o
      ≡ some (record {
        kind = kind;
        fingerprint = fingerprint;
        detected_at = detection now kind fingerprint o;
      })
unfolding differs detection
unchanged now kind fingerprint none h = absurd (ground (arith, h))
unchanged now kind fingerprint (some r) h =
    ground (arith, h, same_kind_iff r.kind kind, str_eq_iff r.fingerprint fingerprint)

-- A hazard that is not new leaves every row as it was, the time of its detection included. Reported again,
-- at whatever time, a hazard is not new.
pub upsert_issue_pipeline_hazard_lem :
    (now later : ℕ) (key : IssueKey) (kind : HazardKind) (fingerprint : String) (hazards : Hazards)
    → ((upsert_issue_pipeline_hazard now key kind fingerprint hazards).0 ≡ false
        → (j : IssueKey)
        → lookup j (upsert_issue_pipeline_hazard now key kind fingerprint hazards).1
          ≡ lookup j hazards)
      × ((upsert_issue_pipeline_hazard later key kind fingerprint
            (upsert_issue_pipeline_hazard now key kind fingerprint hazards).1).0
          ≡ false)
unfolding upsert_issue_pipeline_hazard query_issue_pipeline_hazard
upsert_issue_pipeline_hazard_lem now later key kind fingerprint hazards =
    let row : PipelineHazard = record {
      kind = kind;
      fingerprint = fingerprint;
      detected_at = detection now kind fingerprint (lookup key hazards);
    } in
    (
      λ h j. lookup-insert key j row hazards ∙ elim (Bool-cases (key_eq key j)) [
        | inl e ↦ rw e (
            sym (unchanged now kind fingerprint (lookup key hazards) h)
            ∙ ap (λ k. lookup k hazards) ((key_eq_iff key j).0 e))
        | inr e ↦ rw e refl
      ],
      rw (lookup-insert key key row hazards, (key_eq_iff key key).1 refl)
          (unfold differs in
            (ground (arith, same_kind_iff kind kind, str_eq_iff fingerprint fingerprint))),
    )
