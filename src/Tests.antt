-- ===== src/Tests.antt =====
-- Runs of the scripts on concrete pages.
mod Fixture
mod TelemetryRuns
mod PageRuns
mod FlowRuns
mod LoginRuns
mod SessionRuns
mod LibraryRuns
mod MergeRuns
