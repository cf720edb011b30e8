-- ===== src/Codec.antt =====
-- mgw-core/util/source/codec-common.c: what it reads and writes of the H.264 and AAC formats.
pub mod Aac
pub mod Nals
pub mod Startcode
