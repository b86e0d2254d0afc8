-- ===== src/AsyncUtils.antt =====
-- modal/_utils/async_utils.py: the generator `async_map_ordered`, and the decorator `retry`.
pub mod Ordered
pub mod Items
pub mod OrderedSteps
pub mod Order
pub mod Attempts
mod Examples
