-- ===== src/Runner.antt =====
-- internal/background: the worker loop above the durable work store.
pub mod System
pub mod Config
pub mod Claimed
pub mod Loop
pub mod Rules
pub mod Logged
pub mod Outcomes
pub mod Fencing
pub mod Calm
pub mod Steady
pub mod Ends
mod Examples
