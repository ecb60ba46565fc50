-- ===== src/Lib.antt =====
-- ekizu is a C++ library for the Discord API. These modules model the part of it that encrypts
-- voice and video frames end to end (src/dave), the transport of voice packets (src/voice), the
-- connection to the gateway (src/shard.cpp), the rate limiter of the REST API
-- (src/rate_limiter.cpp), the cache (include/ekizu/lru_cache.hpp) and the ids
-- (include/ekizu/snowflake.hpp), and prove what makes them correct.
--
-- The program's parts, and how they work together. A sender calls `Encryptor::encrypt`, which has
-- `OutboundFrameProcessor::process_frame` cut the frame, by its codec, into bytes that packetizers
-- must be able to read and bytes to encrypt; it takes a key for the current generation from a key
-- ratchet, seals the bytes with AES-128-GCM, puts the two streams together again, and appends a
-- trailer: tag, nonce, ranges, size, marker. A receiver calls `Decryptor::decrypt`, which has
-- `InboundFrameProcessor::parse_frame` take the frame apart, and tries its `CipherManager`s, the
-- newest first; a manager refuses nonces that it has processed, finds the cipher of the
-- generation, opens the ciphertext and has the frame rebuilt.
--
-- Which module is about which code:
-- - Prelude, with Tests, Lists and Bits: names, lists and Boolean tests on the native numbers, and
--   bit operations as arithmetic.
-- - Dave.Leb128: src/dave/leb128.cpp. `leb128_size`, `write_leb128`, `read_leb128`; the bytes
--   between a pointer and its end are a list, a null pointer is `none`.
-- - Dave.Buffer: src/dave/buffer_utils.hpp. A view outside its buffer is `none`.
-- - Dave.Ranges: the ranges and `do_reconstruct` of src/dave/frame_processors.cpp.
-- - Dave.Outbound and Dave.Codecs.Process: `OutboundFrameProcessor` of the same file.
-- - Dave.Codecs (Nalu, H26x, Av1, Simple): src/dave/codec_utils.cpp.
-- - Dave.Inbound: `InboundFrameProcessor` of src/dave/frame_processors.cpp.
-- - Dave.Ciphers: src/dave/cipher_manager.hpp, with `KeyRatchetInterface` of
--   src/dave/key_ratchet.hpp as a parameter.
-- - Dave.Aead: src/dave/aead_cipher.cpp; the calls of OpenSSL are a parameter, and `IsGcm` says
--   what is relied on: the sizes of ciphertext and tag, and that opening undoes sealing.
-- - Dave.Encryptor and Dave.Decryptor: src/dave/encryptor.cpp and src/dave/decryptor.cpp.
-- - Dave.EndToEnd: a frame from a sender to a receiver.
-- - Voice: src/voice. Rtp is voice_util.hpp, Crypto is voice_crypto.cpp with libsodium as a parameter,
--   Receiver and Sender are what voice_receiver.cpp and voice_sender.cpp do with a packet; the results
--   of the end-to-end layer are arguments there. Receiver.Transport is about a packet's way. Link is
--   the websocket: voice_heartbeat.cpp, voice_reconnect.cpp, and in Machine the loop of
--   voice_websocket.cpp with `run`, `close` and `request_stop`; Heartbeats, Final and Dead are about it.
-- - Gateway: src/shard.cpp. Shard has the state, closing, sending and heartbeats; Connection how it
--   connects and reads; Messages what it does with a payload; Machine all that its strand runs, by
--   inputs; Json the values that the parser gives. A step gives the state after it and the actions it
--   asks for. Effects has lemmas on all steps at once; Pending, Closing, Attempts, Heartbeats and
--   Resume are about calls of `next_event`, closing, the back-off, dead connections and sessions.
-- - RateLimiter: src/rate_limiter.cpp, which sends the requests to the REST API one at a time: its
--   state and limits, and in Machine its steps; Headers reads the values of its headers. Starts and
--   Steps are lemmas on single steps; Order, Shutdown and Once are about the order and the account
--   of requests, Limits about waiting for a reset time, Stuck about a header that cannot be read.
-- - LruCache: include/ekizu/lru_cache.hpp. Entries and Linked are about its list and its map,
--   Recency and Reads about single operations, History about all sequences of calls.
-- - Snowflake: include/ekizu/snowflake.hpp and src/snowflake.cpp, ids and their text.
--
-- State and failure. An object is a record of its fields, and a member function that changes it
-- returns the record after the call. `none` stands for what is undefined in the source: a view or
-- a write outside a buffer. Errors are values. `size_t` wraps where it is written so
-- (`add_size`, `sub_size`). A time is a number of nanoseconds that is passed in.
--
-- Loops. The loops of leb128.cpp recurse on the accessibility of `<`. The others have fuel: the
-- number of bytes or bits of the buffer, which is enough as each round takes one at least, and 20 for
-- the digits of a number below 2^64. The loop of `process_frame_av1` is the exception: its index can
-- wrap around, and where the rounds of the fuel do not suffice the answer is `running`.
--
-- Not modelled: the conversion of the data of an event to its type (`from_json` of the API types),
-- of which only enters whether it returns; the key exchange (src/dave/session.cpp), which calls a library for MLS; the HTTP, UDP
-- and websocket clients, the UDP set-up and the MLS messages of a voice connection, and the JSON types
-- of the API.
pub mod Dave
pub mod Gateway
pub mod LruCache
pub mod Prelude
pub mod RateLimiter
pub mod Snowflake
pub mod Voice
