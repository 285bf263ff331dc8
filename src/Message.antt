-- ===== src/Message.antt =====
-- `gm_control_message_info` of shared/include/ghostmedia/gm_core.h: a control message in parsed form.
pub mod Access
pub mod Fields
pub mod Profile
pub mod Request
pub mod Response
pub mod Event
pub mod Parse
use ghost_media.Base.{ℕ, List}
use ghost_media.Audio.{AudioProfile}
use ghost_media.Abi.{Status}

pub record MessageInfo : Type 0 where
  pub struct_size : ℕ
  pub abi_version : ℕ
  pub kind : ℕ
  pub id : ℕ
  pub mutating : ℕ
  pub udp_port : ℕ
  pub stream_id : ℕ
  pub key_epoch : ℕ
  pub playout_target_ms : ℕ
  pub has_reason : ℕ
  pub versions_count : ℕ
  pub versions : List ℕ
  pub profile : AudioProfile
  pub type : List ℕ
  pub role : List ℕ
  pub client_name : List ℕ
  pub server_id : List ℕ
  pub boot_id : List ℕ
  pub session_id : List ℕ
  pub token : List ℕ
  pub reason : List ℕ
  pub state : List ℕ
  pub path_state : List ℕ
  pub output_state : List ℕ
  pub session_stream_state : List ℕ
  pub transport_state : List ℕ
  pub first_media_timestamp : List ℕ
  pub monotonic_ns : List ℕ

-- The outcome of a parse: a message, or the status that refuses it.
pub data Parsed : Type 0 where
  parsed : MessageInfo → Parsed
  refused : Status → Parsed

abbrev pub session_hello : ℕ
session_hello = 1

abbrev pub transport_bind : ℕ
transport_bind = 2

abbrev pub stream_open : ℕ
stream_open = 3

abbrev pub stream_start : ℕ
stream_start = 4

abbrev pub stream_stop : ℕ
stream_stop = 5

abbrev pub stream_close : ℕ
stream_close = 6

abbrev pub stream_rekey : ℕ
stream_rekey = 7

abbrev pub status_get : ℕ
status_get = 8

abbrev pub ping : ℕ
ping = 9

abbrev pub session_close : ℕ
session_close = 10

abbrev pub response_result : ℕ
response_result = 100

abbrev pub response_error : ℕ
response_error = 101

abbrev pub event_stream_started : ℕ
event_stream_started = 200

abbrev pub event_stream_stopped : ℕ
event_stream_stopped = 201

abbrev pub event_output_state : ℕ
event_output_state = 202

abbrev pub event_session_expiring : ℕ
event_session_expiring = 203
