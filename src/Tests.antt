-- ===== src/Tests.antt =====
-- The sample spans, and the statements of the library at them. An order service sends one message at
-- the second second of 1970, a billing service processes it two seconds later.
mod Samples
mod StoreTests
mod CorrelationTests
mod IngestTests
mod ReadingTests
mod RulesTests
mod AuditTests
mod ServiceTests
mod ReportTests
mod CommandTests
