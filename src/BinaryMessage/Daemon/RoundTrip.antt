-- ===== src/BinaryMessage/Daemon/RoundTrip.antt =====
-- Daemon responses survive their payloads.
use can_bridge_daemon.Prelude.{
  ℕ, ◌%◌, ◌^◌, ◌≤◌, ◌<◌, ◌≡◌, ◌≢◌, Option, none, some, eq_iff, subst, sym, Bool, String, List, [],
  ◌∷◌, ◌++◌, append_assoc, All, length, arith,
}
use can_bridge_daemon.BinaryMessage.Types.{MsgType, DaemonBinaryResponse}
use can_bridge_daemon.Text.{as_bytes}
use can_bridge_daemon.BinaryMessage.Wire.{
  ◌>>=◌, pure, to_le_bytes, to_u8, max_u16, put_u16, put_string, put_strings, get_u16, get_u32,
  get_u64, get_string, get_strings, get_bool, get_data,
}
use can_bridge_daemon.BinaryMessage.Wire.Reads.{
  Reads, Reads-pure, Reads-cast, Reads-last, as_u16, Reads-bind, Reads-u16, Reads-u32, Reads-u64,
  Reads-bool, Reads-data, Reads-string, Reads-strings, FitsString, put_string_lem, put_strings_lem,
  string_bytes, strings_bytes,
}
use can_bridge_daemon.BinaryMessage.Daemon.{encode_daemon_payload, decode_daemon_payload, non_empty}

-- The text that stands for an error message.
abbrev pub error_text : Option String → String
error_text none = ""
error_text (some msg) = msg

-- What a response needs to fit its fixed-width fields. An error message that is there is not empty.
abbrev pub FitsDaemon : DaemonBinaryResponse → Type 0
FitsDaemon (DaemonBinaryResponse.hello_ack version server_name features) =
    FitsString version
    × FitsString server_name
    × (length features ≤ max_u16)
    × All FitsString features
FitsDaemon (DaemonBinaryResponse.pong id) = id < 2 ^ 64
FitsDaemon (DaemonBinaryResponse.ifaces items) = (length items ≤ max_u16) × All FitsString items
FitsDaemon (DaemonBinaryResponse.subscribed ifaces) =
    (length ifaces ≤ max_u16) × All FitsString ifaces
FitsDaemon DaemonBinaryResponse.unsubscribed = Unit {0}
FitsDaemon (DaemonBinaryResponse.send_ack ok none) = Unit {0}
FitsDaemon (DaemonBinaryResponse.send_ack ok (some msg)) = FitsString msg × (msg ≢ "")
FitsDaemon (DaemonBinaryResponse.frame_event ts_ms iface dir id is_fd bytes) =
    (ts_ms < 2 ^ 64) × FitsString iface × FitsString dir × (id < 2 ^ 32) × (length bytes ≤ max_u16)
FitsDaemon (DaemonBinaryResponse.error message) = FitsString message

non_empty-some : (msg : String) → msg ≢ "" → non_empty msg ≡ some msg
unfolding non_empty
non_empty-some msg h = ground (arith, eq_iff msg "")

-- A list of texts behind its count.
Reads-counted :
    {B : Type 0} (f : List String → B) (ss : List String)
    → length ss ≤ max_u16
    → All FitsString ss
    → Reads
        (get_u16 >>= λ count. get_strings count >>= λ items. pure (f items))
        (to_le_bytes 2 (length ss) ++ strings_bytes ss)
        (f ss)
Reads-counted f ss hl ha =
    Reads-bind get_u16 _ (Reads-u16 (length ss) (omega arith))
      (Reads-last (get_strings (length ss)) f (Reads-strings ss ha))

counted_lem :
    (out : List ℕ) (ss : List String)
    → length ss ≤ max_u16
    → All FitsString ss
    → put_strings (put_u16 out (length ss % 65536)) ss
      ≡ out ++ (to_le_bytes 2 (length ss) ++ strings_bytes ss)
unfolding put_u16
counted_lem out ss hl ha =
    rw (put_strings_lem (put_u16 out (length ss % 65536)) ss ha, put_u16, as_u16 (length ss) hl)
      (append_assoc out (to_le_bytes 2 (length ss)) (strings_bytes ss))

empty_fits : FitsString ""
unfolding as_bytes
empty_fits = omega arith

Reads-ack :
    (ok : Bool) (text : String)
    → FitsString text
    → Reads
        (decode_daemon_payload MsgType.send_ack)
        (to_u8 ok ∷ string_bytes text)
        (DaemonBinaryResponse.send_ack ok (non_empty text))
unfolding decode_daemon_payload
Reads-ack ok text h = Reads-bind get_bool _ (Reads-bool ok) (
    Reads-last get_string (λ t. DaemonBinaryResponse.send_ack ok (non_empty t))
      (Reads-string text h))

-- The payload of a response that fits is read back as the response.
pub decode_daemon_payload-encode :
    (resp : DaemonBinaryResponse)
    → FitsDaemon resp
    → Reads
        (decode_daemon_payload (encode_daemon_payload resp).0)
        (encode_daemon_payload resp).1
        resp
unfolding encode_daemon_payload decode_daemon_payload put_u16
decode_daemon_payload-encode (DaemonBinaryResponse.hello_ack version server_name features)
      (hv, hn, hl, ha) =
    Reads-cast
      (Reads-bind get_string _ (Reads-string version hv) (
        Reads-bind get_string _ (Reads-string server_name hn)
          (Reads-counted (DaemonBinaryResponse.hello_ack version server_name) features hl ha)))
      (rw
        (
          counted_lem _ features hl ha,
          put_string_lem (put_string [] version) server_name hn,
          put_string_lem [] version hv,
        )
        (simp append_assoc))
decode_daemon_payload-encode (DaemonBinaryResponse.pong id) h =
    Reads-last get_u64 DaemonBinaryResponse.pong (Reads-u64 id h)
decode_daemon_payload-encode (DaemonBinaryResponse.ifaces items) (hl, ha) =
    Reads-cast (Reads-counted DaemonBinaryResponse.ifaces items hl ha)
      (sym (counted_lem [] items hl ha))
decode_daemon_payload-encode (DaemonBinaryResponse.subscribed ifaces) (hl, ha) =
    Reads-cast (Reads-counted DaemonBinaryResponse.subscribed ifaces hl ha)
      (sym (counted_lem [] ifaces hl ha))
decode_daemon_payload-encode DaemonBinaryResponse.unsubscribed h = Reads-pure _
decode_daemon_payload-encode (DaemonBinaryResponse.send_ack ok none) h =
    Reads-cast (Reads-ack ok "" empty_fits) (sym (put_string_lem (to_u8 ok ∷ []) "" empty_fits))
decode_daemon_payload-encode (DaemonBinaryResponse.send_ack ok (some msg)) (hm, hne) =
    Reads-cast
      (subst
        (λ e.
          Reads (decode_daemon_payload MsgType.send_ack) (to_u8 ok ∷ string_bytes msg)
            (DaemonBinaryResponse.send_ack ok e))
        (non_empty-some msg hne) (Reads-ack ok msg hm))
      (sym (put_string_lem (to_u8 ok ∷ []) msg hm))
decode_daemon_payload-encode (DaemonBinaryResponse.frame_event ts_ms iface dir id is_fd bytes)
      (ht, hi, hd, hid, hb) =
    Reads-cast
      (Reads-bind get_u64 _ (Reads-u64 ts_ms ht) (
        Reads-bind get_string _ (Reads-string iface hi) (
          Reads-bind get_string _ (Reads-string dir hd) (
            Reads-bind get_u32 _ (Reads-u32 id hid) (
              Reads-bind get_bool _ (Reads-bool is_fd) (
                Reads-bind get_u16 _ (Reads-u16 (length bytes) (omega arith)) (
                  Reads-last (get_data (length bytes))
                    (DaemonBinaryResponse.frame_event ts_ms iface dir id is_fd)
                    (Reads-data bytes))))))))
      (rw (put_string_lem _ dir hd, put_string_lem _ iface hi, as_u16 (length bytes) hb)
        (simp append_assoc))
decode_daemon_payload-encode (DaemonBinaryResponse.error message) h =
    Reads-cast (Reads-last get_string DaemonBinaryResponse.error (Reads-string message h))
      (sym (put_string_lem [] message h))
