-- ===== src/FilePatterns.antt =====
-- modal/_utils/pattern_utils.py and modal/file_pattern_matcher.py: which files a list of patterns
-- selects. Texts are lists of code points; the engine of regular expressions is a parameter.
pub mod Text
pub mod Pattern
pub mod Ignorefile
pub mod Matcher
pub mod Kinds
pub mod Paths
pub mod LastWins
pub mod Pruning
mod Examples
