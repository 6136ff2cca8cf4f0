-- ===== src/Tests.antt =====
-- Runs of the code on the inputs of its unit tests (`Runs`), and each theorem at a concrete input.
mod Runs
mod FramingExamples
mod BudgetExamples
mod SessionExamples
mod RedactExamples
mod TransportExamples
mod McpExamples
mod WatchExamples
