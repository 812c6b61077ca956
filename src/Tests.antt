-- ===== src/Tests.antt =====
-- The theorems at concrete inputs.
mod Identity
mod Entries
mod Runs
mod Reads
mod Events
mod Labels
mod Arrivals
mod Listings
mod Registry
mod Follow
mod Migrations
