-- ===== src/Syncx.antt =====
-- core/syncx: the limits, the reference-counted resource and the pool.
pub mod AtomicLimit
pub mod RefResource
pub mod Pool
pub mod SingleFlight
mod Tests
