-- ===== src/Tests.antt =====
-- Runs of the model at concrete inputs, and the theorems at inputs that meet their hypotheses.
mod Combinators
mod Fronts
mod Boxes
mod Channels
mod Grpc
mod Cells
mod Grammar
mod Parameters
mod WireFormat
mod Encryption
mod Sorting
mod Routing
mod Availability
mod Client
mod Tracking
mod Discovery
mod Streams
mod Windows
mod Addresses
mod Responses
mod Schema
mod Retries
mod FirstSearches
mod Shards
