-- ===== src/Tests.antt =====
-- Concrete inputs: a small operating system, a control region in it, and each theorem that has
-- hypotheses applied where they hold.
mod Machine
mod Fixture
mod Runtime
mod Transport
mod Watch
mod Threads
mod Delivered
mod Examples
mod Failures
mod Opening
mod Events
mod Layout
mod Names
mod Regions
mod Requests
mod Responses
