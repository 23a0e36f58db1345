-- ===== src/Tests.antt =====
-- The theorems applied to concrete inputs.
mod Samples
mod Saving
mod Codes
mod RateLimit
mod RealClock
mod HwClock
mod AddCode
mod Guessing
mod Expiry
mod Answers
mod Load
mod Starting
mod Tools
mod Generator
mod Service
mod Startup
mod Loader
mod Daemon
mod Efi
mod Efivarfs
