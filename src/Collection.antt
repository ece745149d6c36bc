-- ===== src/Collection.antt =====
-- core/collection: the containers, the rolling window and the timing wheel.
pub mod Ring
pub mod Fifo
pub mod SafeMap
pub mod RollingWindow
pub mod TimingWheel
pub mod Cache
