-- ===== src/Image.antt =====
-- internal/image: verified sources, their streaming to a destination, and their data.
pub mod Model
pub mod Streams
pub mod Write
pub mod Verify
pub mod Stage
pub mod Closing
