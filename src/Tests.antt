-- ===== src/Tests.antt =====
-- Runs of the model on small inputs, and the properties at inputs that meet their hypotheses.
mod Numeric
mod Persistent
mod Tagless
mod Lazy
mod Policies
mod Overflow
mod Frontier
mod PolicyTrees
mod Checkpointing
mod Pushed
mod Pushes
mod Quiet
