-- ===== src/Lib.antt =====
-- Verification library of GhostMedia's shared protocol core (shared/core and
-- shared/include/ghostmedia/gm_core.h), the C++ code that both ends of the protocol link, and of
-- parts of the native runtime below it (runtime/core).
--
-- The core has two parts that meet in the key epoch of a stream. The control side parses JSON
-- requests and drives a session; the media side protects UDP datagrams with a fixed header, a
-- nonce and a replay window, and follows the epochs that the control side commits. Both rest on
-- identities: a connection is used if its certificate and its trust record pass the peer policy,
-- and the media keys are derived from a context that names the stream, the epoch and both peers.
--
-- Modules and code:
--   Abi       `gm_status`, `gm_bytes`, the version and the struct sizes of gm_core.h
--   Wire      the big-endian reads and writes that gm_media.cpp declares for itself
--   Media     shared/core/gm_media.cpp: Header (`gm_media_encode_header`,
--             `gm_media_decode_header`), Nonce (`gm_media_build_nonce`), Replay
--             (`gm_replay_window_*`), Epoch (`gm_epoch_window_*`)
--   Text      the C strings of shared/core/gm_state.cpp
--   Audio     `gm_audio_profile_validate` of shared/core/gm_control.cpp and
--             `gm_audio_calculate_timing_plan` of shared/core/gm_state.cpp
--   Json      the JSON parser of shared/core/gm_control.cpp: Utf8 (`is_valid_utf8`), Lexer
--             (strings, numbers), Parser (`JsonParser`, `parse_json`); Limits and Fuel have the proofs
--   Message   `gm_control_message_info` and the validation in shared/core/gm_control.cpp: Access
--             (`find_member`, `get_required_*`), Fields, Profile, Request, Response, Event, Parse
--             (`gm_control_parse_message`)
--   Frame     the frames of shared/core/gm_core.cpp (`gm_control_encode_frame`,
--             `gm_control_peek_frame`)
--   Session   shared/core/gm_state.cpp: the session, its requests (one function for each case of
--             the `switch` in `gm_control_session_ingest`), the entry points; Session.Runs has the
--             sequences of calls on one session. Those modules take the parser as a parameter;
--             Parsing and Protocol give it `gm_control_parse_message`
--   Crypto    shared/core/gm_crypto.cpp: Trust (`gm_trust_record_authorizes`), Policy
--             (`gm_tls_peer_policy_validate`), PeerId (`gm_identity_encode_peer_id`), Sha256
--             (`sha256_fixed`), Exporter (`gm_crypto_build_exporter_context`), Keys
--             (`gm_crypto_split_exporter_output`, `gm_crypto_validate_aead_inputs`)
--   Runtime   runtime/core: Process (calls of a POSIX kernel that is a parameter), Owned (rules for
--             the descriptors that calls leave open), Sockets (socket_provider.cpp: Open has the
--             calls that open and close, Transfer those that send and receive, Addresses the
--             queries), Certificate (`certificate_profile` of certificate_profile.cpp), Tls
--             (`TlsSession::handshake` of tls_provider.cpp), Pair (`tls13_exporter_pair_with_pins`),
--             AesGcm (aes_gcm_provider.cpp)
--   Base, Bits  lists, tests and bits that the others share
--   Examples  tests, and each theorem that has conditions applied to a concrete input
--
-- Correspondence. A struct is a record without its reserved fields, save where the code reads them.
-- A pointer that may be null is an Option, and a pointer and a size are a value of Abi.Bytes. A
-- function that writes through its pointers returns their new contents next to its status; two
-- pointers never alias. Unsigned integers are natural numbers, with `% 2 ^ w` where the code can
-- wrap. The struct sizes are those of an LP64 platform. A `char` array is the list of its bytes.
-- The position of the JSON parser is the list of the bytes that are left. Loops with a fixed count,
-- and the nesting of JSON values, are recursion on what is left of the limit. The loops over a text
-- (`valid_from`, `string_loop`) run on its length as fuel, which is enough, as each round takes a
-- byte at least (Json.Fuel).
--
-- Calls of the kernel and of OpenSSL are parameters: a function from the kernel's state and a
-- request to a reply, a record of what the accessors return for a certificate, and records of the
-- library's calls on a connection and on a cipher context. What a theorem needs of them is a
-- hypothesis (IsStreamKernel, IsTimely, IsBuffer) and holds of those in Examples.Runtime. The
-- sockets are those of the POSIX branches, with SO_NOSIGPIPE on a platform that has it, and the
-- flags of `send` left out; times are in microseconds. The loop that waits runs on fuel, one for
-- each interrupted wait, and the theorems on descriptors hold for any fuel; the loops that send and
-- receive run on the number of bytes, and the one that drains a connection on what is pending,
-- which is enough, as each round moves a byte at least. A loop that lacks fuel gives none.
--
-- Not modelled: `gm_get_version` of gm_core.cpp; of runtime/core the Windows branches of
-- socket_provider.cpp, `certificate_spki_digest`, in tls_provider.cpp the creation of a session, its
-- transfers and its exporter, and the provider for identities and the C interface gm_runtime.cpp,
-- which wrap OpenSSL; the tools under WinDevice, and the Swift output server. Of gm_control.cpp,
-- `std::bad_alloc` and what a failed parse leaves in the caller's message. That `sha256_fixed` is the
-- standard's SHA-256 is not stated.
mod Base
pub mod Bits
pub mod Abi
pub mod Wire
pub mod Media
pub mod Text
pub mod Audio
pub mod Json
pub mod Message
pub mod Frame
pub mod Crypto
pub mod Runtime
pub mod Session
mod Examples
