-- ===== src/Tests.antt =====
-- The theorems at concrete inputs, and runs of the definitions.
pub mod Samples
pub mod Wire
pub mod Network
pub mod Managers
pub mod Server
pub mod Program
pub mod Commands
pub mod Setup
pub mod Threads
pub mod Launchers
pub mod Runtime
