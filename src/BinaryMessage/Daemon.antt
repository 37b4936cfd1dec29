-- ===== src/BinaryMessage/Daemon.antt =====
-- The payloads of daemon responses in src/domain/binary_message.rs.
pub mod RoundTrip
use can_bridge_daemon.Prelude.{
  ℕ, ◌%◌, String, Option, none, some, List, [], ◌∷◌, ◌++◌, length, if◌then◌else◌, str_eq,
}
use can_bridge_daemon.BinaryMessage.Types.{
  MsgType, DaemonBinaryResponse, DecodeError, got_client_msg_type,
}
use can_bridge_daemon.BinaryMessage.Wire.{
  Parser, ◌>>=◌, pure, fail, to_le_bytes, to_u8, put_u16, put_string, put_strings, get_u16, get_u32,
  get_u64, get_string, get_strings, get_bool, get_data,
}

-- `match error_message { Some(msg) => put_string(…, msg), None => put_string(…, "") }`
put_error_message : List ℕ → Option String → List ℕ
put_error_message payload (some msg) = put_string payload msg
put_error_message payload none = put_string payload ""

unfoldable pub encode_daemon_payload : DaemonBinaryResponse → MsgType × List ℕ
unfolding put_error_message
encode_daemon_payload (DaemonBinaryResponse.hello_ack version server_name features) =
    let payload = put_string [] version in
    let payload = put_string payload server_name in
    let payload = put_u16 payload (length features % 65536) in
    (MsgType.hello_ack, put_strings payload features)
encode_daemon_payload (DaemonBinaryResponse.pong id) = (MsgType.pong, [] ++ to_le_bytes 8 id)
encode_daemon_payload (DaemonBinaryResponse.ifaces items) =
    (MsgType.ifaces, put_strings (put_u16 [] (length items % 65536)) items)
encode_daemon_payload (DaemonBinaryResponse.subscribed ifaces) =
    (MsgType.subscribed, put_strings (put_u16 [] (length ifaces % 65536)) ifaces)
encode_daemon_payload DaemonBinaryResponse.unsubscribed = (MsgType.unsubscribed, [])
encode_daemon_payload (DaemonBinaryResponse.send_ack ok error_message) =
    (MsgType.send_ack, put_error_message ([] ++ (to_u8 ok ∷ [])) error_message)
encode_daemon_payload (DaemonBinaryResponse.frame_event ts_ms iface dir id is_fd bytes) =
    let payload = [] ++ to_le_bytes 8 ts_ms in
    let payload = put_string payload iface in
    let payload = put_string payload dir in
    let payload = payload ++ to_le_bytes 4 id in
    let payload = payload ++ (to_u8 is_fd ∷ []) in
    let payload = put_u16 payload (length bytes % 65536) in (MsgType.frame_event, payload ++ bytes)
encode_daemon_payload (DaemonBinaryResponse.error message) = (MsgType.error, put_string [] message)

-- `if error_text.is_empty() { None } else { Some(error_text) }`
unfoldable pub non_empty : String → Option String
non_empty text = if str_eq text "" then none else some text

-- The bytes that are left of the payload are dropped by the caller, as in the source.
unfoldable pub decode_daemon_payload : MsgType → Parser DaemonBinaryResponse
unfolding non_empty
decode_daemon_payload MsgType.hello_ack = do
  version ← get_string
  server_name ← get_string
  features_count ← get_u16
  features ← get_strings features_count
  pure (DaemonBinaryResponse.hello_ack version server_name features)
decode_daemon_payload MsgType.pong = do id ← get_u64; pure (DaemonBinaryResponse.pong id)
decode_daemon_payload MsgType.ifaces = do
  count ← get_u16
  items ← get_strings count
  pure (DaemonBinaryResponse.ifaces items)
decode_daemon_payload MsgType.subscribed = do
  count ← get_u16
  ifaces ← get_strings count
  pure (DaemonBinaryResponse.subscribed ifaces)
decode_daemon_payload MsgType.unsubscribed = pure DaemonBinaryResponse.unsubscribed
decode_daemon_payload MsgType.send_ack = do
  ok ← get_bool
  error_text ← get_string
  pure (DaemonBinaryResponse.send_ack ok (non_empty error_text))
decode_daemon_payload MsgType.frame_event = do
  ts_ms ← get_u64
  iface ← get_string
  dir ← get_string
  id ← get_u32
  is_fd ← get_bool
  data_len ← get_u16
  bytes ← get_data data_len
  pure (DaemonBinaryResponse.frame_event ts_ms iface dir id is_fd bytes)
decode_daemon_payload MsgType.error = do
  message ← get_string
  pure (DaemonBinaryResponse.error message)
decode_daemon_payload msg_type = fail (got_client_msg_type msg_type)
