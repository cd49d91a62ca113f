-- ===== src/Tests.antt =====
-- Runs of the models on concrete inputs, and the theorems applied to them.
mod Toy
mod Script
mod Pipe
mod Lists
mod Overlay
mod Leases
mod Disk
mod Lexing
mod Parsing
mod Rules
mod Edits
mod Queue
mod Gauges
mod Wire
mod Rounds
mod Approvals
