-- ===== src/BinaryMessage/Types.antt =====
-- The messages of src/domain/binary_message.rs, and the errors of its decoders.
use can_bridge_daemon.Prelude.{ℕ, Bool, String, Option, List, Result, ok, err, if◌then◌else◌, ◌==◌}

pub data MsgType : Type 0 where
  client_hello ping list_ifaces subscribe unsubscribe send_frame : MsgType
  hello_ack pong ifaces subscribed unsubscribed send_ack frame_event error : MsgType

-- An `anyhow!` or `bail!` of the file, by its message.
pub data DecodeError : Type 0 where
  unknown_msg_type : ℕ → DecodeError
  bad_magic eof eof_in_string utf8 bad_data_len : DecodeError
  got_client_msg_type got_daemon_msg_type : MsgType → DecodeError

-- `msg_type as u16`
unfoldable pub to_u16 : MsgType → ℕ
to_u16 MsgType.client_hello = 101
to_u16 MsgType.ping = 102
to_u16 MsgType.list_ifaces = 103
to_u16 MsgType.subscribe = 104
to_u16 MsgType.unsubscribe = 105
to_u16 MsgType.send_frame = 106
to_u16 MsgType.hello_ack = 1
to_u16 MsgType.pong = 2
to_u16 MsgType.ifaces = 3
to_u16 MsgType.subscribed = 4
to_u16 MsgType.unsubscribed = 5
to_u16 MsgType.send_ack = 6
to_u16 MsgType.frame_event = 7
to_u16 MsgType.error = 8

unfoldable pub from_u16 : ℕ → Result DecodeError MsgType
from_u16 v =
    if v == 101
    then ok MsgType.client_hello
    else if v == 102
    then ok MsgType.ping
    else if v == 103
    then ok MsgType.list_ifaces
    else if v == 104
    then ok MsgType.subscribe
    else if v == 105
    then ok MsgType.unsubscribe
    else if v == 106
    then ok MsgType.send_frame
    else if v == 1
    then ok MsgType.hello_ack
    else if v == 2
    then ok MsgType.pong
    else if v == 3
    then ok MsgType.ifaces
    else if v == 4
    then ok MsgType.subscribed
    else if v == 5
    then ok MsgType.unsubscribed
    else if v == 6
    then ok MsgType.send_ack
    else if v == 7
    then ok MsgType.frame_event
    else if v == 8
    then ok MsgType.error
    else err (DecodeError.unknown_msg_type v)

pub data ClientBinaryRequest : Type 0 where
  client_hello : (client protocol : String) → ClientBinaryRequest
  ping : (id : ℕ) → ClientBinaryRequest
  list_ifaces : ClientBinaryRequest
  subscribe : (ifaces : List String) → ClientBinaryRequest
  unsubscribe : ClientBinaryRequest
  send_frame :
      (iface : String) (id : ℕ) (is_fd brs esi : Bool) (bytes : List ℕ) → ClientBinaryRequest

pub data DaemonBinaryResponse : Type 0 where
  hello_ack : (version server_name : String) (features : List String) → DaemonBinaryResponse
  pong : (id : ℕ) → DaemonBinaryResponse
  ifaces : (items : List String) → DaemonBinaryResponse
  subscribed : (ifaces : List String) → DaemonBinaryResponse
  unsubscribed : DaemonBinaryResponse
  send_ack : (ok : Bool) (error_message : Option String) → DaemonBinaryResponse
  frame_event :
      (ts_ms : ℕ) (iface dir : String) (id : ℕ) (is_fd : Bool) (bytes : List ℕ)
      → DaemonBinaryResponse
  error : (message : String) → DaemonBinaryResponse
