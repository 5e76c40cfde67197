-- ===== src/Examples.antt =====
-- Runs of the modelled code on small inputs: a validator for one deployment, an executor on either
-- backend, a store with one job, and a protocol with two agents.
pub mod Commands
pub mod Recovery
pub mod Runs
pub mod Faults
pub mod Teams
pub mod Trials
pub mod Votes
pub mod Shown
pub mod Plans
pub mod Requests
pub mod Candidates
