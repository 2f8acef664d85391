-- ===== src/Tests.antt =====
-- The theorems at concrete inputs.
mod Compiled
mod Machine
mod Maps
mod Points
mod Patching
mod Fixed
mod Service
mod Table
mod Shipped
mod Shell
mod Loading
mod Profile
mod Allocation
