-- ===== src/Tests.antt =====
-- Runs of the model at concrete inputs, and the theorems at inputs that meet their conditions.
mod Samples
mod Parser
mod Rules
mod Runs
mod Api
mod Boot
mod Whole
mod Streams
mod Frames
mod Browser
mod Kernel
mod Programs
mod Scores
mod Windows
