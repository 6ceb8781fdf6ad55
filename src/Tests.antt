-- ===== src/Tests.antt =====
-- Runs of the models on concrete data, and the theorems at concrete inputs.
mod Keys
mod Names
mod Guards
mod Sealing
mod Content
mod Store
mod Streams
mod Tasks
mod Output
mod Serving
mod Thumbs
mod Vaults
