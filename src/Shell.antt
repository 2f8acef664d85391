-- ===== src/Shell.antt =====
-- app/ihp_cli.c: the shell of the device.
pub mod Text
pub mod Line
pub mod Typing
pub mod Words
pub mod Scanning
pub mod Session
pub mod Choices
