-- ===== src/Blobs.antt =====
-- modal/_utils/blob_utils.py and modal/_utils/bytes_io_segment_payload.py: uploads of large objects. A file
-- is the list of its bytes, and the transfer itself is what the server answers.
pub mod Segment
pub mod SegmentLaws
pub mod Multipart
pub mod Assembly
pub mod Blocks
pub mod Upload
pub mod Integrity
pub mod Fallback
pub mod FallbackLaws
mod Examples
