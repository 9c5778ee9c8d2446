-- ===== src/Job.antt =====
-- The job table and its state machine: backend/app/models.py (Job, JobState, GenerationMode) and
-- backend/app/state_machine.py. A `detail` is a flat dictionary; the wall clock is an argument.
mod State
mod Machine
pub mod History
pub mod Runs
pub mod Claim
mod Tests
pub use State.*
unfoldable pub use Machine.*
