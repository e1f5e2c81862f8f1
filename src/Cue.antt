-- ===== src/Cue.antt =====
-- zen_ma2_agent/cue_content_verifier.py: the comparison of the actions of an approved show plan with the cues
-- that were read back from the console. Rows reads the export, Verify compares, Fixtures, Index and Sound say what a verified
-- report shows.
pub mod Rows
pub mod Verify
pub mod Index
pub mod Fixtures
pub mod Sound
mod Tests
