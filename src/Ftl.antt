-- ===== src/Ftl.antt =====
-- The page-mapped flash translation layer: conv_ftl.c, over the geometry of ssd.h.
pub mod Geometry
pub mod State
pub mod Pages
pub mod Pointer
pub mod Collect
pub mod Map
pub mod Victims
pub mod Conv
pub mod Init
mod ListQueue
mod Tests
