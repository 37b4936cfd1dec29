-- ===== src/Tests/Codec.antt =====
-- The binary protocol at concrete inputs.
use Prim.Native.String
use can_bridge_daemon.Prelude.{
  ℕ, zero, suc, ◌%◌, ◌≡◌, ◌≢◌, ◌≤◌, refl, ap, false, String, none, some, List, [], ◌∷◌, ◌++◌,
  length, take, ok, err, eq_iff, arith,
}
use can_bridge_daemon.Text.{as_bytes, from_utf8}
use can_bridge_daemon.BinaryMessage.Types.{
  ClientBinaryRequest, DaemonBinaryResponse, to_u16, from_u16, utf8, got_daemon_msg_type,
}
use can_bridge_daemon.BinaryMessage.Wire.{put_u16, put_string, put_strings, get_u64}
use can_bridge_daemon.BinaryMessage.Client.{encode_client_payload, decode_client_payload}
use can_bridge_daemon.BinaryMessage.Daemon.{encode_daemon_payload}
use can_bridge_daemon.BinaryMessage.Packet.{
  header_len, decode_packet, encode_client, encode_daemon, decode_client_from, decode_daemon_from,
}
use can_bridge_daemon.BinaryMessage.Packet.RoundTrip.{
  decode_client_from-encode_client, decode_daemon_from-encode_daemon, decode_client_from_incomplete,
  decode_client_from-append, decode_client_from_bounds, decode_client_from-encode_daemon,
}
use can_bridge_daemon.BinaryMessage.Packet.Lossy.{
  decode_client_from-subscribe, decode_client_from_cut,
}

abbrev request : ClientBinaryRequest
request = ClientBinaryRequest.send_frame "can0" 0x123 false false false (1 ∷ 2 ∷ [])

abbrev response : DaemonBinaryResponse
response = DaemonBinaryResponse.send_ack false (some "no such iface")

abbrev ping_bytes : List ℕ
ping_bytes =
    67 ∷ 66 ∷ 68 ∷ 49 ∷ 102 ∷ 0 ∷ 0 ∷ 0 ∷ 8 ∷ 0 ∷ 0 ∷ 0 ∷ 7 ∷ 1 ∷ 0 ∷ 0 ∷ 0 ∷ 0 ∷ 0 ∷ 0 ∷ []

ping_encoded : encode_client (ClientBinaryRequest.ping 263) ≡ ping_bytes
unfolding encode_client to_u16
ping_encoded = refl

ping_decoded :
    decode_client_from (ping_bytes ++ (99 ∷ [])) ≡ ok (some (ClientBinaryRequest.ping 263, 20))
unfolding decode_client_from decode_packet from_u16 decode_client_payload get_u64
ping_decoded = refl

euro : from_utf8 (0xE2 ∷ 0x82 ∷ 0xAC ∷ []) ≡ some "€"
unfolding from_utf8
euro = refl

overlong : from_utf8 (0xC0 ∷ 0x80 ∷ []) ≡ none
unfolding from_utf8
overlong = refl

surrogate : from_utf8 (0xED ∷ 0xA0 ∷ 0x80 ∷ []) ≡ none
unfolding from_utf8
surrogate = refl

decode_client_from-encode_client_example :
    decode_client_from (encode_client request ++ (9 ∷ []))
    ≡ ok (some (request, length (encode_client request)))
unfolding as_bytes encode_client_payload put_string put_u16
decode_client_from-encode_client_example =
    decode_client_from-encode_client request (9 ∷ []) (omega arith) (omega arith)

ack_text : ◌≢◌ {A = String} "no such iface" ""
ack_text = ground (arith, eq_iff "no such iface" "")

decode_daemon_from-encode_daemon_example :
    decode_daemon_from (encode_daemon response ++ [])
    ≡ ok (some (response, length (encode_daemon response)))
unfolding as_bytes encode_daemon_payload put_string
decode_daemon_from-encode_daemon_example =
    decode_daemon_from-encode_daemon response [] (omega arith, ack_text) (omega arith)

decode_client_from_incomplete_example : decode_client_from (take 19 ping_bytes) ≡ ok none
unfolding encode_client_payload encode_client to_u16
decode_client_from_incomplete_example =
    decode_client_from_incomplete (ClientBinaryRequest.ping 263) (take 19 ping_bytes) [] 0
      (omega arith) refl

decode_client_from-append_example :
    decode_client_from ((ping_bytes ++ (99 ∷ [])) ++ (5 ∷ []))
    ≡ ok (some (ClientBinaryRequest.ping 263, 20))
decode_client_from-append_example =
    decode_client_from-append (ping_bytes ++ (99 ∷ [])) (5 ∷ []) ping_decoded (λ e. cc)

decode_client_from_bounds_example : (header_len ≤ 20) × (20 ≤ 21)
decode_client_from_bounds_example =
    decode_client_from_bounds (ping_bytes ++ (99 ∷ [])) (ClientBinaryRequest.ping 263) 20
      ping_decoded

decode_client_from-encode_daemon_example :
    decode_client_from (encode_daemon response ++ [])
    ≡ err (got_daemon_msg_type (encode_daemon_payload response).0)
unfolding as_bytes encode_daemon_payload put_string
decode_client_from-encode_daemon_example =
    decode_client_from-encode_daemon response [] (omega arith)

decode_client_from-subscribe_example :
    decode_client_from (encode_client (ClientBinaryRequest.subscribe ("can0" ∷ [])) ++ [])
    ≡ ok (
        some (
          ClientBinaryRequest.subscribe (take (1 % 65536) ("can0" ∷ [])),
          length (encode_client (ClientBinaryRequest.subscribe ("can0" ∷ []))),
        ))
unfolding as_bytes encode_client_payload put_strings put_string put_u16
decode_client_from-subscribe_example =
    decode_client_from-subscribe ("can0" ∷ []) [] (omega arith) (omega arith)

-- A text of `n` letters, kept shut.
letters : ℕ → String
letters zero = String.[]
letters (suc n) = String.◌∷◌ "a" (letters n)

length-letters : (n : ℕ) → length (as_bytes (letters n)) ≡ n
unfolding letters as_bytes
length-letters zero = refl
length-letters (suc n) = ap suc (length-letters n)

decode_client_from_cut_example :
    decode_client_from (
      encode_client
        (ClientBinaryRequest.client_hello (String.◌++◌ (letters 65534) (String.◌∷◌ "é" "")) "v1")
      ++ [])
    ≡ err utf8
decode_client_from_cut_example =
    decode_client_from_cut (letters 65534) "" "v1" "é" [] (length-letters 65534) (omega arith)
