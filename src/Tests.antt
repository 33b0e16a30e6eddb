-- ===== src/Tests.antt =====
-- Runs of the model on small inputs, and each theorem at an input that meets its hypotheses.
pub mod Scheduler
pub mod Runs
pub mod Requests
pub mod Store
pub mod Grids
pub mod Downloads
pub mod Results
pub mod Background
pub mod Redaction
pub mod Documents
pub mod Access
pub mod Readers
