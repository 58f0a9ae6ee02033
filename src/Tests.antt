-- ===== src/Tests.antt =====
-- Runs of the model on concrete inputs, and the theorems at inputs that meet their hypotheses.
mod PathStore
mod Stores
mod ValuesRuns
mod Files
mod PatternRuns
mod Representation
mod Threads
mod Monitors
mod KernelCalls
mod CommandLines
mod EndPoints
mod Tags
