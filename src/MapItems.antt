-- ===== src/MapItems.antt =====
-- modal/parallel_map.py, the bookkeeping of a map call: the state of each input (`_MapItemContext`)
-- and of all inputs in progress (`_MapItemsManager`).
pub mod Data
pub mod Context
pub mod Manager
pub mod Responses
pub mod Capacity
pub mod Invariant
pub mod Steps
pub mod Completion
pub mod Once
pub mod Admits
pub mod Attempts
pub mod Outputs
pub mod Yields
mod Examples
