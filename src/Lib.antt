-- ===== src/Lib.antt =====
-- A model of the client SDK's own logic: what it keeps between the user's calls and the events of the
-- native library, which does the networking and the media.
--
-- The parts, and how they meet. `FfiClient` (src/ffi_client.cpp) sends requests to the native library,
-- completes the promises that wait for its events and hands each event to the listeners. The audio and
-- video streams (src/audio_stream.cpp, src/video_stream.cpp) and the data track stream
-- (src/data_track_stream.cpp) are such listeners: they queue what arrives for a reader's thread. The
-- subscription dispatcher (src/subscription_thread_dispatcher.cpp) starts, replaces and joins these
-- threads. Data streams (src/data_stream.cpp) cut texts and byte arrays into chunks, send them in
-- order; `Room` (src/room.cpp) routes what arrives to the readers, which put it together again. `Room`
-- is a listener too: it connects and disconnects, keeps the participants with their publications and
-- tracks, tells its delegate of them and hands tracks to the dispatcher. Token sources
-- (src/token_source.cpp and its companions) get the server's address and the token to connect with.
-- The event tracer (src/trace/event_tracer.cpp) writes what the macros report to a file, on a thread of
-- its own.
--
-- Which file models which part:
--   Prelude          shared names, tests on numbers, list functions, dictionaries (Prelude/Assoc)
--   DataStream       Split: `splitUtf8`; Reader: `TextStreamReader`, `ByteStreamReader`;
--                    Writer: `BaseStreamWriter` with its two subclasses; Writer/Described: how they are
--                    made
--   MediaStream      `VideoStream` and `AudioStream`, over the type of a frame
--   DataTrackStream  `DataTrackStream`
--   FfiClient        `FfiClient`; Event: `ExtractAsyncId`; Slots: `ListenerSlot` and the waits on it;
--                    Requests: the asynchronous requests
--   Dispatcher       `SubscriptionThreadDispatcher`; DataTracks: its data readers and `stopAll`;
--                    Loops: the threads of its audio and video readers; Accounts: where its threads
--                    are; Abandons: those that a throw destroys; Reads and Closings: the
--                    streams that they read and that are closed
--   Room             the data streams of `Room`: the handlers by topic, the routing to the readers
--                    (src/room.cpp); Session: its connection; Roster: its participants and tracks;
--                    Snapshot: `remotePublications`; Notices: the events that only tell the delegate
--   LocalParticipant the receiving side of remote procedure calls (src/local_participant.cpp) and their
--                    errors (src/rpc_error.cpp); Publications: the tracks that it publishes;
--                    Commands: its other requests
--   PublishOptions   the options of a publication and their message (src/room_proto_converter.cpp)
--   RemotePublication  `RemoteTrackPublication` (src/remote_track_publication.cpp)
--   AudioSource      `AudioSource`: captures and the queue that it tells of (src/audio_source.cpp)
--   FreshAudioStream `FreshAudioStream` (src/fresh_audio_stream.cpp)
--   TokenSource      Base64 and Jwt: `isParticipantTokenValid` (src/token_source_jwt.cpp); Json: requests
--                    and responses (src/token_source_json.cpp); Sources, Url, Cache: the token sources
--                    (src/token_source.cpp)
--   VideoFrame       `VideoFrame`: the buffer's size and the layout of its planes (src/video_frame.cpp)
--   Tracer           the event tracer: its queue, its writer thread and its file
--                    (src/trace/event_tracer.cpp); Json: `FormatEventJson`; Categories: `GetCategoryEnabled`
--   DataTrack        Schema: the encodings and the schema ids (src/data_track_schema.cpp); Ends: a local
--                    and a remote data track (src/local_data_track.cpp, src/remote_data_track.cpp) with
--                    their errors and frames (src/data_track_error.cpp, src/data_track_frame.cpp)
--   Native           what becomes of a request to the native library
--   Encryption       key providers, frame cryptors and their manager (src/e2ee.cpp)
--   AudioProcessing  `AudioProcessingModule` (src/audio_processing_module.cpp)
--   PlatformAudio    `PlatformAudio` (src/platform_audio.cpp)
--   AudioFrame       `AudioFrame` (src/audio_frame.cpp)
--   Tracks           `Track` and the local and remote tracks (src/track.cpp, src/local_audio_track.cpp,
--                    src/local_video_track.cpp, src/remote_audio_track.cpp, src/remote_video_track.cpp)
--   VideoSource      `VideoSource` and `EncodedVideoSource` (src/video_source.cpp)
--   Conversions      the enumerations of src/room_proto_converter.cpp and of
--                    src/track_proto_converter.cpp; Media: src/video_utils.cpp; Rooms: what is told
--                    of rooms and of data streams
--   Tests            the theorems at concrete inputs
--
-- State and operations: an object's fields are a record, and a method is a function from the record to
-- what it returns and the record that it leaves. A method that holds its mutex throughout is one step;
-- one that lets go of it in between is several, and other threads' steps may come between them, except
-- where the file says otherwise: `Room::connect` meets other threads only while it waits for the answer,
-- and an asynchronous request of `FfiClient` is one step. A wait that does not end at once is an outcome
-- of its own: a method of the dispatcher ends where its waits for threads begin, and the end of each wait
-- is a step. Calls out of an object are listed as effects, in order. Exceptions are outcomes; where one
-- destroys a thread that nobody joined, the program ends.
--
-- Numbers: sizes and ids are natural numbers; the 64-bit counters of async ids and of chunks wrap
-- (`% 2 ^ 64`), as do the 32-bit sizes of a video frame's planes and the 64-bit nanoseconds of `FreshAudioStream`, and
-- theorems that need them not to wrap say so. Fuel: `split_from` and `write_bytes_from` have one unit for each byte, since each
-- round takes a byte or more, and `read_all_loop` one for each queued chunk and one to see the end;
-- the theorems on them show that this is enough.
--
-- A base64 text is padded in three rounds at most. Decimal and hexadecimal digits are written in at
-- most 20 and 16 rounds, which are enough for numbers of 64 bits. Bytes of a text are numbers below 256.
--
-- Parameters: whether the native library accepts a message (`send_ok`), initialises, answers a request
-- or opens a stream is an argument of the operation, as are the JSON library's parser, the clock, the
-- HTTP transport and the inner source of a cache, the printing of doubles and what lies at an address
-- that the native library gives. Callbacks, streams, threads and handles are named by numbers.
--
-- Not modelled: the fields of the generated messages beyond those that steer the code or that a
-- conversion copies, the native library itself and the bodies of the callbacks; a custom tracer and
-- Chromium's macros (src/trace/trace_event.h); statistics, real-time audio processing and logging, which
-- are copies of generated messages, calls of a C interface and output; the loop of a data reader's
-- thread, the message of `RoomOptions` and the texts of `toString`.
pub mod Prelude
pub mod DataStream
pub mod MediaStream
pub mod DataTrackStream
pub mod FfiClient
pub mod Dispatcher
pub mod VideoFrame
pub mod Room
pub mod LocalParticipant
pub mod RemotePublication
pub mod FreshAudioStream
pub mod AudioSource
pub mod PublishOptions
pub mod TokenSource
pub mod Tracer
pub mod DataTrack
pub mod Native
pub mod Encryption
pub mod AudioProcessing
pub mod PlatformAudio
pub mod Conversions
pub mod AudioFrame
pub mod Tracks
pub mod VideoSource
pub mod Tests
