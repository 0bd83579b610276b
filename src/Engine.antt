-- ===== src/Engine.antt =====
-- engine/src: tables over the key-value database.
pub mod Error
pub mod Codec
