-- ===== src/Audit.antt =====
-- scripts/audit_check.py, what runs the checks of a plan and what it writes, and the proof of a full
-- audit in supervisor/orchestrator.py.
pub mod Checks
pub mod Records
pub mod Run
pub mod Visit
pub mod Counts
pub mod Full
pub mod Proof
pub mod Fresh
pub mod Normal
pub mod Matches
pub mod Contracts
pub mod Verified
pub mod Passed
pub mod Chain
pub mod Append
pub mod Grown
pub mod Continued
pub mod Scans
pub mod Written
pub mod Visited
pub mod Complete
pub mod Proves
pub mod Ended
pub mod Accepted
pub mod Sound
pub mod Valid
pub mod Refused
pub mod Agrees
pub mod Finished
pub mod Attempts
pub mod Statuses
