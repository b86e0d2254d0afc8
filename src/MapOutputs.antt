-- ===== src/MapOutputs.antt =====
-- modal/parallel_map.py, the outputs of a map call: the counters that end it, and `poll_outputs`,
-- which hands the outputs to the caller, in the order of the inputs if asked to.
pub mod Progress
pub mod Order
pub mod InOrder
pub mod Complete
mod Examples
