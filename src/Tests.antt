-- ===== src/Tests.antt =====
-- Runs of the code on small concrete data: each is a theorem applied to it.
mod OneShots
mod Versions
mod Scores
mod Merges
mod Trails
mod Access
mod Requests
mod Members
