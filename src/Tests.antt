-- ===== src/Tests.antt =====
-- Concrete stores, formats and requests, on which the theorems are applied.
mod Disk
mod Coder
mod Formats
mod Letters
mod Nodes
mod Club
mod History
mod Wire
mod Peers
mod Post
mod Network
mod Callbacks
mod Calls
mod Sessions
mod Founding
mod Filing
mod Json
mod Prompt
mod Shell
mod Started
mod Attaching
mod Fingerprint
mod Histories
mod Arriving
