-- ===== src/Tests/CorrelationTests.antt =====
-- The statements about correlation at the sample spans.
use async_trace_doctor.Common.{arith, ◌≤◌, ◌<◌, ◌≡◌, refl, ◌↔◌, true, none, some, All, length}
use async_trace_doctor.Common.Int.{pos}
use async_trace_doctor.Model.{Duration, is_consumer, destination, environment, service_namespace}
use async_trace_doctor.Correlation.{Result, no_result, correlate}
use async_trace_doctor.Correlation.Evidence.{IsReported}
use async_trace_doctor.Correlation.Warrants.{correlate-warranted}
use async_trace_doctor.Correlation.Counts.{has_reference}
use async_trace_doctor.Correlation.References.{correlate-references}
use async_trace_doctor.Correlation.Maps.{IsConsistent, correlate-IsConsistent}
use async_trace_doctor.Correlation.{delta}
use async_trace_doctor.Model.{attr_int}
use async_trace_doctor.Common.{Returns}
use async_trace_doctor.Correlation.Total.{IsServed, correlate-Returns}
use async_trace_doctor.Rules.{correlation_for_consumer}
use async_trace_doctor.Rules.Orphans.{first_of, correlation_for_consumer-first_of}
use async_trace_doctor.Tests.Samples.{processed, export}

abbrev pub minute : Duration
minute = pos 60000000000

abbrev pub found : Result
found = elim (correlate export minute) [ none ↦ no_result | some r ↦ r ]

pub export_correlated : correlate export minute ≡ some found
unfolding correlate destination environment service_namespace
export_correlated = refl

one_found : length found.correlations ≡ 1
unfolding correlate destination environment service_namespace
one_found = refl

correlate-warranted_example : All (IsReported export minute) found.correlations
correlate-warranted_example = correlate-warranted export minute export_correlated

processed_consumes : is_consumer processed ≡ true
unfolding is_consumer
processed_consumes = refl

correlate-references_example :
    ((0 < found.context_references 1) ↔ (has_reference processed ≡ true))
    × (found.unresolved_references 1 ≤ found.context_references 1)
correlate-references_example =
    correlate-references export minute 1 export_correlated refl processed_consumes

correlate-IsConsistent_example : IsConsistent found
correlate-IsConsistent_example = correlate-IsConsistent export minute export_correlated

correlation_for_consumer-first_of_example :
    correlation_for_consumer 1 found ≡ some (first_of 1 found.correlations)
correlation_for_consumer-first_of_example =
    correlation_for_consumer-first_of export minute export_correlated 1

-- The only producer and the only consumer are two seconds apart.
pub export-IsServed : All (λ c. is_consumer c ≡ true → IsServed export c) export
unfolding delta attr_int is_consumer
export-IsServed =
    ((λ h. absurd (cc h)), ((λ h. (((λ p. refl), ((λ p. refl), tt)), omega arith)), tt))

correlate-Returns_example : Returns (correlate export minute)
correlate-Returns_example = correlate-Returns export minute export-IsServed
