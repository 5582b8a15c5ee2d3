-- ===== src/Stream.antt =====
-- The binary streams: yasio/obstream.hpp and yasio/ibstream.hpp.
pub mod Buffer
pub mod Writer
pub mod Reader
pub mod RoundTrip
