-- ===== src/Decoder.antt =====
-- The package decoder: lines of known formats cut into their fields.
pub mod Cri
pub mod Postgres
pub mod Nginx
