-- ===== src/Pool.antt =====
-- The memory pools of libsax/sax/mempool.c.
pub mod Xslab
pub mod Fsb
mod Tests
