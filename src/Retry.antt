-- ===== src/Retry.antt =====
-- modal/retries.py: the retry policy that a user gives, and the manager that hands out the delays.
pub mod Policy
pub mod PolicyBounds
pub mod Manager
pub mod Delays
mod Examples
