-- ===== src/Tests.antt =====
-- Small runs of the components, and the instances of their theorems.
mod Compare
mod Relay
mod Engine
mod Accounts
mod Acceptance
mod Buffers
mod Greeting
mod Negotiation
mod Monitors
mod Requests
mod Passwords
mod Requested
mod Selectors
mod Files
mod Ends
