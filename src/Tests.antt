-- ===== src/Tests.antt =====
-- Runs of the model on concrete inputs, and the results applied to them.
mod Data
mod ShadowRuns
mod MemoryRuns
mod AggregateRuns
mod ArithmeticRuns
mod OverflowRuns
mod SolverRuns
mod SystemRuns
mod InputRuns
mod CompilerRuns
mod ExpressionRuns
