-- ===== src/Invocations.antt =====
-- modal/_functions.py and modal/_utils/function_utils.py: one call of a remote function, from the input that is
-- sent to the result, with the retries of the caller. The answers of the server are parameters.
pub mod Result
pub mod Create
pub mod Poll
pub mod PollLaws
pub mod Run
pub mod RunLaws
pub mod RunEnds
pub mod Served
pub mod InputPlane
pub mod Generator
mod Examples
