-- ===== src/Slm.antt =====
-- csd_slm.c and csd_slm.h: the SLM regions, their data-readiness tracking and demand reads.
pub mod Region
pub mod Store
pub mod Frontier
pub mod Ready
pub mod Notify
pub mod Extent
pub mod Demand
pub mod Magic
pub mod Memory
mod Tests
