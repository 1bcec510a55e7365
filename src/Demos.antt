-- ===== src/Demos.antt =====
-- threadx-app/cross/app/src/bin: the demo programs beside the one of the network.
pub mod Queue
pub mod InOrder
pub mod Flags
pub mod Start
pub mod Checked
pub mod Defined
pub mod Async
pub mod AsyncStart
mod Tests
mod StartTests
use threadx_rust.Base.{ℕ}
