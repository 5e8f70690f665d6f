-- ===== src/Examples.antt =====
-- Runs of the models at concrete inputs, and the theorems applied to them.
mod SignIn
mod Grants
mod Deliveries
mod Rings
mod Connections
mod Frames
mod Hub
mod Monitors
mod Listeners
mod Tokens
mod Sessions
mod Requests
mod Pushes
mod Selections
mod Addresses
mod Uploads
mod Shares
