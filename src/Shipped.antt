-- ===== src/Shipped.antt =====
-- The programs that the firmware ships, and what they decide.
pub mod Programs
pub mod Sources
pub mod Runs
pub mod TestCve
pub mod Coap
pub mod Destopt
pub mod Walk
pub mod Rounds
pub mod Options
pub mod Loader
pub mod Loading
pub mod Picking
pub mod Alone
