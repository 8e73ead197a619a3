-- ===== src/Tests.antt =====
-- Runs of the modelled code, and instances of the parameters that the runs use.
mod World
mod Table
mod Codec
mod Instance
mod Values
mod Filtering
mod Parsing
mod Writing
mod Packing
mod Subscribing
mod Syncing
mod Expiring
mod Dispatching
mod Monitoring
mod Relaying
mod Scheduling
mod Querying
