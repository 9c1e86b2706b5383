-- ===== src/Tests/CommandTests.antt =====
-- The statement about the audit command, at a file of one request.
use async_trace_doctor.Common.{◌≡◌, refl, sym, subst, some, List, [], ◌∷◌, All, true}
use mathlib.Core.List.{flat_map}
use native.Mathlib.Decide.{ℕ_discrete}
use async_trace_doctor.Common.{Bool-cases}
use async_trace_doctor.Common.Dict
use async_trace_doctor.Common.Texts.{String-discrete}
use async_trace_doctor.Store.{deep_equal}
use async_trace_doctor.Ingest.{identity, dedup_content_hash}
use async_trace_doctor.Common.Int.{pos, ℤ-discrete}
use async_trace_doctor.Model.{Span, is_consumer}
use async_trace_doctor.Config.{Config}
use async_trace_doctor.Correlation.Total.{IsServed}
use async_trace_doctor.Ingest.{accepted, from_proto, read_path}
use async_trace_doctor.Command.{Ending, audit_command, load}
use async_trace_doctor.Command.Exits.{IsRead, IsExplained, audit_command-IsExplained}
use async_trace_doctor.Tests.Samples.{arrival}
use async_trace_doctor.Tests.AuditTests.{demanding}
use async_trace_doctor.Tests.IngestTests.{sample_messages, resource}
use async_trace_doctor.Tests.ReadingTests.{parse_zero, one_request, two_files, limits}

abbrev IsServedAll : List Span → Type 0
IsServedAll spans = All (λ s. is_consumer s ≡ true → IsServed spans s) spans

abbrev sample_spans : List Span
sample_spans = from_proto sample_messages [] (resource ∷ [])

sample_spans-IsServedAll : IsServedAll sample_spans
unfolding is_consumer from_proto
sample_spans-IsServedAll = ((λ h. absurd (cc h)), tt)

demanding_loads : load (some demanding) ≡ some demanding
unfolding load
demanding_loads = refl

sample_reads :
    read_path sample_messages parse_zero one_request demanding.redact_attributes
      (limits 2)
      two_files
    ≡ some (accepted sample_spans)
unfolding read_path Dict.put identity dedup_content_hash flat_map deep_equal String-discrete
    Bool-cases ℕ_discrete ℤ-discrete
sample_reads = refl

sample-IsServedAll :
    (c : Config) (spans : List Span)
    → IsRead sample_messages parse_zero one_request
        (λ xs. xs)
        (λ less fs. fs)
        arrival
        (pos 5000000)
        (some demanding)
        (λ report. true)
        (limits 2)
        two_files
        c
        (accepted spans)
    → IsServedAll spans
sample-IsServedAll c spans (loaded, reads) =
    let same : demanding ≡ c = cc (loaded, demanding_loads) in
    let again : read_path sample_messages parse_zero one_request demanding.redact_attributes
          (limits 2) two_files
        ≡ some (accepted spans) =
      rw (sym same) at reads in
    let listed : sample_spans ≡ spans = cc (again, sample_reads) in
    subst IsServedAll listed sample_spans-IsServedAll

audit_command-IsExplained_example :
    (ending : Ending) × (audit_command sample_messages parse_zero one_request
        (λ xs. xs)
        (λ less fs. fs)
        arrival
        (pos 5000000)
        (some demanding)
        (λ report. true)
        (limits 2)
        two_files
      ≡ some ending)
    × IsExplained sample_messages parse_zero one_request
        (λ xs. xs)
        (λ less fs. fs)
        arrival
        (pos 5000000)
        (some demanding)
        (λ report. true)
        (limits 2)
        two_files
        ending
audit_command-IsExplained_example =
    audit_command-IsExplained sample_messages parse_zero one_request (λ xs. xs) (λ less fs. fs)
      arrival (pos 5000000) (some demanding) (λ report. true) (limits 2) two_files
      sample-IsServedAll
