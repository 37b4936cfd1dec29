-- ===== src/BinaryMessage/Client/RoundTrip.antt =====
-- Client requests survive their payloads.
use can_bridge_daemon.Prelude.{◌%◌, ◌^◌, ◌≤◌, ◌<◌, refl, [], append_assoc, All, length, arith}
use can_bridge_daemon.BinaryMessage.Types.{ClientBinaryRequest}
use can_bridge_daemon.BinaryMessage.Wire.{
  max_u16, put_u16, get_u16, get_u32, get_u64, get_string, get_strings, get_bool, get_data,
}
use can_bridge_daemon.BinaryMessage.Wire.Reads.{
  Reads, Reads-pure, Reads-cast, Reads-last, as_u16, Reads-bind, Reads-u16, Reads-u32, Reads-u64,
  Reads-bool, Reads-data, Reads-string, Reads-strings, FitsString, put_string_lem, put_strings_lem,
  string_bytes,
}
use can_bridge_daemon.BinaryMessage.Client.{encode_client_payload, decode_client_payload}

-- What a request needs to fit its fixed-width fields.
abbrev pub FitsClient : ClientBinaryRequest → Type 0
FitsClient (ClientBinaryRequest.client_hello client protocol) =
    FitsString client × FitsString protocol
FitsClient (ClientBinaryRequest.ping id) = id < 2 ^ 64
FitsClient (ClientBinaryRequest.subscribe ifaces) =
    (length ifaces ≤ max_u16) × All FitsString ifaces
FitsClient (ClientBinaryRequest.send_frame iface id is_fd brs esi bytes) =
    FitsString iface × (id < 2 ^ 32) × (length bytes ≤ max_u16)
FitsClient _ = Unit {0}

-- The payload of a request that fits is read back as the request.
pub decode_client_payload-encode :
    (req : ClientBinaryRequest)
    → FitsClient req
    → Reads (decode_client_payload (encode_client_payload req).0) (encode_client_payload req).1 req
unfolding encode_client_payload decode_client_payload put_u16
decode_client_payload-encode (ClientBinaryRequest.client_hello client protocol) (hc, hp) =
    Reads-cast
      (Reads-bind get_string _ (Reads-string client hc) (
        Reads-last get_string (ClientBinaryRequest.client_hello client) (Reads-string protocol hp)))
      (rw (put_string_lem [] client hc, put_string_lem (string_bytes client) protocol hp) refl)
decode_client_payload-encode (ClientBinaryRequest.ping id) h =
    Reads-last get_u64 ClientBinaryRequest.ping (Reads-u64 id h)
decode_client_payload-encode ClientBinaryRequest.list_ifaces h = Reads-pure _
decode_client_payload-encode (ClientBinaryRequest.subscribe ifaces) (hl, ha) =
    Reads-cast
      (Reads-bind get_u16 _ (Reads-u16 (length ifaces) (omega arith)) (
        Reads-last (get_strings (length ifaces)) ClientBinaryRequest.subscribe
          (Reads-strings ifaces ha)))
      (rw
        (
          put_strings_lem (put_u16 [] (length ifaces % 65536)) ifaces ha,
          put_u16,
          as_u16 (length ifaces) hl,
        )
        refl)
decode_client_payload-encode ClientBinaryRequest.unsubscribe h = Reads-pure _
decode_client_payload-encode (ClientBinaryRequest.send_frame iface id is_fd brs esi bytes)
      (hi, hid, hb) =
    Reads-cast
      (Reads-bind get_string _ (Reads-string iface hi) (
        Reads-bind get_u32 _ (Reads-u32 id hid) (
          Reads-bind get_bool _ (Reads-bool is_fd) (
            Reads-bind get_bool _ (Reads-bool brs) (
              Reads-bind get_bool _ (Reads-bool esi) (
                Reads-bind get_u16 _ (Reads-u16 (length bytes) (omega arith)) (
                  Reads-last (get_data (length bytes))
                    (ClientBinaryRequest.send_frame iface id is_fd brs esi)
                    (Reads-data bytes))))))))
      (rw (put_string_lem [] iface hi, put_u16, as_u16 (length bytes) hb) (simp append_assoc))
