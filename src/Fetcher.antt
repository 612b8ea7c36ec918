-- ===== src/Fetcher.antt =====
-- internal/fetcher/fetcher.go.
pub mod Calendar
pub mod Download
pub mod Refresh
pub mod Dates
pub mod Months
pub mod Decompression
pub mod Outcomes
mod Examples
