-- ===== src/DataStream.antt =====
-- src/data_stream.cpp and include/livekit/data_stream.h: chunking, readers and writers.
pub mod Split
pub mod Reader
pub mod Writer
