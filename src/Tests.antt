-- ===== src/Tests.antt =====
-- The theorems at concrete inputs.
mod Code
mod Tables
mod Front
mod Scan
mod Trees
mod Names
mod Runs
mod Parse
