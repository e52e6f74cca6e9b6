-- ===== src/Agent.antt =====
-- src/agent_harness: one run of an agent. The model provider, the tools, the environment and the clock
-- are arguments.
pub mod Distinct
pub mod Prerequisites
pub mod Backlog
pub mod Requests
pub mod Polling
pub mod Waiting
pub mod Outcome
pub mod Questions
pub mod Arguments
pub mod Spec
pub mod Valid
pub mod Output
pub mod Runs
pub mod Scratchpad
pub mod Loop
pub mod Turns
pub mod Calls
pub mod Budget
pub mod Bounds
pub mod Preparation
pub mod Pending
pub mod Start
pub mod Run
pub mod Results
pub mod Finish
pub mod Fetching
pub mod Settling
mod Samples
mod Tests
