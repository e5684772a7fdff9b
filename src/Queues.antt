-- ===== src/Queues.antt =====
-- include/novaio/concurrent_queues.hpp: the two ring buffers.
pub mod Capacity
pub mod Window
pub mod Local
pub mod Spsc
