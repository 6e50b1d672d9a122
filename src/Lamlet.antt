-- ===== src/Lamlet.antt =====
-- The scalar side of vector instructions: python/zamlet/lamlet.
pub mod OrderedBuffer
