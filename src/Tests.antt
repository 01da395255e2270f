-- ===== src/Tests.antt =====
-- Runs of the model, and the theorems at concrete inputs.
pub mod Data
pub mod Parser
pub mod Lines
pub mod Client
pub mod Blocking
pub mod Tasks
pub mod Items
pub mod Pool
pub mod Sockets
pub mod Wire
pub mod Times
pub mod Config
pub mod Files
pub mod Curl
