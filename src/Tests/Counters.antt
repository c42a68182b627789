-- ===== src/Tests/Counters.antt =====
-- The outcome counters, at a concrete report.
use thermite_rs.Prelude.{[], codes, refl, some, ◌∷◌, ◌≡◌}
use thermite_rs.Outcomes.{ClientReport, record_client_report}

abbrev report : ClientReport
report = record {
  discarded_events =
      record { reason = codes "queue_overflow"; category = codes "error"; quantity = 3 } ∷ [];
  rate_limited_events = [];
  filtered_events = record { reason = codes "x"; category = codes "session"; quantity = 5 } ∷ [];
}

-- Of the report, the three events that overflowed are counted.
report_counts :
    record_client_report (some report) [] ≡ (codes "client_discarded:queue_overflow", 3) ∷ []
unfolding record_client_report
report_counts = refl
