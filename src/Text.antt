-- ===== src/Text.antt =====
-- src/utils/StringUtil.cpp: the searches in byte arrays and the comparison of names.
pub mod Search
pub mod Compare
pub mod Encode
mod Tests
