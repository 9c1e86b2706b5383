-- ===== src/Command/Exits.antt =====
-- How the audit command ends.
use async_trace_doctor.Common.{
  ℕ, Bool, true, false, ◌≡◌, refl, Option, none, some, List, All, ◌⊎◌, inl, inr, Returns,
  Bool-cases, Option-cases,
}
use async_trace_doctor.Model.{Time, Duration, Span, is_consumer}
use async_trace_doctor.Config.{Config, validate}
use async_trace_doctor.Correlation.Total.{IsServed}
use async_trace_doctor.Ingest.{
  Json, Messages, Limits, Input, Read, ReadError, refused, accepted, read_path,
}
use async_trace_doctor.Ingest.Extent.{read_path-IsWithin, Read-cases}
use async_trace_doctor.Rules.{Finding, Report, audit_input, report_violates_policy}
use async_trace_doctor.Rules.Total.{audit-Returns}
use async_trace_doctor.Command.{Ending, clean, violation, failed, load, audit_spans, audit_command}

load-validate : (decoded : Option Config) (c : Config) → load decoded ≡ some c → validate c ≡ none
unfolding load
load-validate none c h = absurd (cc h)
load-validate (some d) c h = elim (Option-cases (validate d)) [
  | inl valid ↦ let same : some d ≡ some c = rw (valid, load) at h in cc
  | inr (e, bad) ↦ absurd (cc (rw (bad, load) at h))
]

module _ (M : Messages) (parse : List ℕ → Option Json)
    (unmarshal : Json → Option (List M.ResourceSpans)) (sort_by_start : List Span → List Span)
    (sort : (Finding → Finding → Bool) → List Finding → List Finding) (now : Time)
    (elapsed : Duration) (decoded : Option Config) (written : Report → Bool) (limits : Limits)
    (input : Input) where
  -- The configuration loads and the input is read as these spans.
  abbrev pub IsRead : Config → Read → Type 0
  IsRead c r =
      (load decoded ≡ some c)
      × (read_path M parse unmarshal c.redact_attributes limits input ≡ some r)

  -- The spans that are read have this report.
  pub record IsAudited (report : Report) (c : Config) : Type 0 where
    pub spans : List Span
    pub reads : IsRead c (accepted spans)
    pub audits : audit_input sort_by_start sort now elapsed c spans ≡ some report

  -- What must hold for each ending.
  abbrev pub IsExplained : Ending → Type 0
  IsExplained clean =
      (c : Config) × (report : Report) × IsAudited report c
      × (written report ≡ true)
      × (report_violates_policy c report ≡ false)
  IsExplained violation =
      (c : Config) × (report : Report) × IsAudited report c
      × (written report ≡ true)
      × (report_violates_policy c report ≡ true)
  IsExplained failed =
      (load decoded ≡ none)
      ⊎ (((c : Config) × (e : ReadError) × IsRead c (refused e))
          ⊎ ((c : Config) × (report : Report) × IsAudited report c × (written report ≡ false)))

  abbrev Explained : Option Ending → Type 0
  Explained o = (ending : Ending) × (o ≡ some ending) × IsExplained ending

  audited-Explained :
      (c : Config) (spans : List Span)
      → IsRead c (accepted spans)
      → Returns (audit_input sort_by_start sort now elapsed c spans)
      → Explained (audit_spans M parse unmarshal sort_by_start sort now elapsed c written spans)
  unfolding audit_spans
  audited-Explained c spans reads (report, audits) =
      let audited : IsAudited report c = record { spans = spans; reads = reads; audits = audits } in
      elim (Bool-cases (written report)) [
        | inr unwritten ↦
            rw (audits, unwritten) (failed, refl, inr (inr (c, report, audited, unwritten)))
        | inl done ↦ elim (Bool-cases (report_violates_policy c report)) [
          | inl violates ↦
              rw (audits, done, violates) (violation, refl, (c, report, audited, done, violates))
          | inr keeps ↦ rw (audits, done, keeps) (clean, refl, (c, report, audited, done, keeps))
        ]
      ]

  -- The audit command ends, if Correlate serves the spans that it accepts. It ends without an error or
  -- with a policy violation only where the configuration loads, the input is read and its report is
  -- written, as the report keeps to the policy or not; else the configuration does not load, or the input
  -- is refused, or a report is not written.
  pub audit_command-IsExplained :
      (served : (c : Config) (spans : List Span)
        → IsRead c (accepted spans)
        → All (λ s. is_consumer s ≡ true → IsServed spans s) spans)
      → (ending : Ending) × (audit_command M parse unmarshal sort_by_start sort now elapsed decoded
            written limits input
          ≡ some ending)
        × IsExplained ending
  unfolding audit_command
  audit_command-IsExplained served = elim (Option-cases (load decoded)) [
    | inl unloaded ↦ rw (unloaded, audit_command) (failed, refl, inl unloaded)
    | inr (c, loaded) ↦
        let (r, reads, within) =
          read_path-IsWithin M parse unmarshal c.redact_attributes limits input in
        elim (Read-cases r) [
          | inl (e, refuses) ↦
              let answers = rw refuses at reads in
              rw (loaded, answers, audit_command)
                (failed, refl, inr (inl (c, e, (loaded, answers))))
          | inr (spans, accepts) ↦
              let answers = rw accepts at reads in
              let returned =
                audit-Returns sort_by_start sort now elapsed c spans
                  (load-validate decoded c loaded) (served c spans (loaded, answers)) in
              rw (loaded, answers, audit_command)
                (audited-Explained c spans (loaded, answers) returned.0)
        ]
  ]
