-- ===== src/Examples.antt =====
-- Runs of the models on concrete inputs: tests, and the theorems at inputs that meet their hypotheses.
mod Inputs
mod Texts
mod Sessions
mod Endings
mod Wire
mod Messages
mod Settings
mod Verdicts
mod Runners
mod Events
mod Launches
mod Serving
mod Testing
mod ResultFiles
mod Outputs
