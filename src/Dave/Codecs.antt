-- ===== src/Dave/Codecs.antt =====
-- src/dave/codec_utils.cpp: which bytes of a video or audio frame stay readable.
pub mod Nalu
pub mod H26x
pub mod Av1
pub mod Simple
pub mod Process
mod Tests
