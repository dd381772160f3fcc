-- ===== src/MismatchMetrics.antt =====
-- core-side-patch/mismatch_metrics.py: the outcome of every ingest, in order.
use p2_ai_knowledge_graph_fo.Base.{
  ℕ, ◌-◌, List, [], ◌∷◌, ◌++◌, Option, none, some, Text, codes, keep_if, length, drop,
  if◌then◌else◌, ◌==◌, list_eq, nat_eq,
}

-- `_records`
abbrev pub Records : Type 0
Records = List (ℕ × Text)

abbrev pub flagged_mismatch : Text
flagged_mismatch = codes "flagged_mismatch"

-- `record`
unfoldable pub add_record : ℕ → Text → Records → Records
add_record org_id validation_status records = records ++ (org_id, validation_status) ∷ []

unfoldable pub of_org : Option ℕ → Records → Records
of_org none records = records
of_org (some org_id) records = keep_if (λ r. r.0 == org_id) records

-- `records[-window:]`, where a window of 0 is the whole list
unfoldable pub recent : Option ℕ → Records → Records
recent none records = records
recent (some window) records =
    if window == 0 then records else drop (length records - window) records

-- The numerator and the denominator of `mismatch_rate`; 0 and 1 without records.
unfoldable pub mismatch_rate : Option ℕ → Option ℕ → Records → ℕ × ℕ
mismatch_rate org_id window all_records =
    let records = recent window (of_org org_id all_records) in
    if length records == 0
    then (0, 1)
    else (length (keep_if (λ r. r.1 == flagged_mismatch) records), length records)

unfoldable pub total_recorded : Option ℕ → Records → ℕ
total_recorded org_id records = length (of_org org_id records)
