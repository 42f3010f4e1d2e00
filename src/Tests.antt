-- ===== src/Tests.antt =====
-- The development's theorems at concrete inputs.
mod DataStreams
mod Streams
mod Clients
mod Dispatchers
mod VideoFrames
mod Rooms
mod Participants
mod Sessions
mod Rosters
mod TokenSources
mod Tracers
mod DataTracks
