-- ===== src/Tests.antt =====
-- Runs at concrete inputs.
mod Options
mod KnownHosts
mod History
mod Views
mod Whole
mod Ssh
mod Polling
mod Storing
mod Expiring
mod Serving
mod Scraping
mod Present
