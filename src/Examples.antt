-- ===== src/Examples.antt =====
-- Runs of the model at concrete inputs: each theorem at an input that meets its hypotheses.
mod Publish
mod Loading
mod Windows
mod Schedules
mod Configs
mod Handlers
mod Storing
mod Notifying
mod Restarts
mod Resumed
mod Healthy
mod Starting
mod Started
mod Acting
mod Peers
mod Interleaving
mod Overlapping
mod States
mod Environments
mod Watched
