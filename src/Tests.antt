-- ===== src/Tests.antt =====
-- Runs of the model on concrete inputs, with toy stand-ins for the code outside the repository.
pub mod World
mod Sessions
mod Transport
mod Recovery
mod Wire
mod Sniffing
mod Server
mod Streaming
mod Fragments
mod Filtering
