-- ===== src/Utils.antt =====
-- modules/utils: percent encoding and Base64.
pub mod Base64
pub mod Encoding
