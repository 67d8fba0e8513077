-- ===== src/Examples.antt =====
-- The properties at work on concrete inputs, and tests of the definitions.
mod Records
mod Volumes
mod Registries
mod Windows
mod Weekly
mod Findings
mod Assessments
mod Reviews
