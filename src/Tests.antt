-- ===== src/Tests.antt =====
-- Concrete runs of the model: the theorems at inputs that exercise the code.
pub mod Scoring
pub mod Kernel
pub mod Queues
pub mod Exports
pub mod Prompts
pub mod Detection
pub mod Parts
pub mod Pipeline
pub mod Startup
pub mod Running
pub mod Smf
pub mod Loop
pub mod Ending
pub mod Requests
pub mod Failing
