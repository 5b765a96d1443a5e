-- ===== src/Tests.antt =====
-- Runs of the model on small inputs, and the theorems at concrete inputs.
mod Budget
mod Recency
mod Adaptive
mod Sketch
mod Operator
mod Naming
mod Queue
mod Zones
mod Records
