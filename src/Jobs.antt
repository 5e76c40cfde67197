-- ===== src/Jobs.antt =====
-- src/aiops_k8s_agents/experiment_jobs.py and experiment_job_runner.py: jobs, their store, and the
-- runner of a job.
pub mod Rows
pub mod Store
pub mod Tables
pub mod Events
pub mod Invariant
pub mod Runner
pub mod Ending
pub mod Race
pub mod Verdict
