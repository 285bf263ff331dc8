-- ===== src/Runtime.antt =====
-- The native runtime: runtime/core/.
pub mod Process
pub mod Owned
pub mod Sockets
pub mod Certificate
pub mod Tls
pub mod Pair
pub mod AesGcm
