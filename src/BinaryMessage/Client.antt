-- ===== src/BinaryMessage/Client.antt =====
-- The payloads of client requests in src/domain/binary_message.rs.
pub mod RoundTrip
use can_bridge_daemon.Prelude.{ℕ, ◌%◌, List, [], ◌∷◌, ◌++◌, length}
use can_bridge_daemon.BinaryMessage.Types.{
  MsgType, ClientBinaryRequest, DecodeError, got_daemon_msg_type,
}
use can_bridge_daemon.BinaryMessage.Wire.{
  Parser, ◌>>=◌, pure, fail, to_le_bytes, to_u8, put_u16, put_string, put_strings, get_u8, get_u16,
  get_u32, get_u64, get_string, get_strings, get_bool, get_data,
}

unfoldable pub encode_client_payload : ClientBinaryRequest → MsgType × List ℕ
encode_client_payload (ClientBinaryRequest.client_hello client protocol) =
    (MsgType.client_hello, put_string (put_string [] client) protocol)
encode_client_payload (ClientBinaryRequest.ping id) = (MsgType.ping, [] ++ to_le_bytes 8 id)
encode_client_payload ClientBinaryRequest.list_ifaces = (MsgType.list_ifaces, [])
encode_client_payload (ClientBinaryRequest.subscribe ifaces) =
    (MsgType.subscribe, put_strings (put_u16 [] (length ifaces % 65536)) ifaces)
encode_client_payload ClientBinaryRequest.unsubscribe = (MsgType.unsubscribe, [])
encode_client_payload (ClientBinaryRequest.send_frame iface id is_fd brs esi bytes) =
    let payload = put_string [] iface in
    let payload = payload ++ to_le_bytes 4 id in
    let payload = payload ++ (to_u8 is_fd ∷ []) in
    let payload = payload ++ (to_u8 brs ∷ []) in
    let payload = payload ++ (to_u8 esi ∷ []) in
    let payload = put_u16 payload (length bytes % 65536) in (MsgType.send_frame, payload ++ bytes)

-- The bytes that are left of the payload are dropped by the caller, as in the source.
unfoldable pub decode_client_payload : MsgType → Parser ClientBinaryRequest
decode_client_payload MsgType.client_hello = do
  client ← get_string
  protocol ← get_string
  pure (ClientBinaryRequest.client_hello client protocol)
decode_client_payload MsgType.ping = do id ← get_u64; pure (ClientBinaryRequest.ping id)
decode_client_payload MsgType.list_ifaces = pure ClientBinaryRequest.list_ifaces
decode_client_payload MsgType.subscribe = do
  count ← get_u16
  ifaces ← get_strings count
  pure (ClientBinaryRequest.subscribe ifaces)
decode_client_payload MsgType.unsubscribe = pure ClientBinaryRequest.unsubscribe
decode_client_payload MsgType.send_frame = do
  iface ← get_string
  id ← get_u32
  is_fd ← get_bool
  brs ← get_bool
  esi ← get_bool
  data_len ← get_u16
  bytes ← get_data data_len
  pure (ClientBinaryRequest.send_frame iface id is_fd brs esi bytes)
decode_client_payload msg_type = fail (got_daemon_msg_type msg_type)
