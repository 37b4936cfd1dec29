-- ===== src/BinaryMessage/Packet/Lossy.antt =====
-- Requests that do not fit the fields of their encoding: what the decoder makes of them.
use Prim.Native.Char.{Char, code}
use Prim.Native.String
use can_bridge_daemon.Prelude.{
  ℕ, ◌+◌, ◌%◌, ◌^◌, ◌≤◌, ◌<◌, min, ◌≡◌, refl, String, none, some, List, [], ◌++◌, append-nil,
  append_assoc, All, length, take, drop, take-append_left, length-append, length-take, le→ltb, ok,
  err, arith,
}
use can_bridge_daemon.Text.{as_bytes, from_utf8}
use can_bridge_daemon.Text.Utf8.{from_utf8-take_cut, as_bytes-append, as_bytes-cons_pos}
use can_bridge_daemon.BinaryMessage.Types.{ClientBinaryRequest, utf8, DecodeError}
use can_bridge_daemon.BinaryMessage.Wire.{
  ◌>>=◌, to_le_bytes, max_u16, put_u16, put_string, get_text, get_string, get_strings,
}
use can_bridge_daemon.BinaryMessage.Wire.Reads.{
  Reads-u16, FitsString, strings_bytes, put_strings_lem, get_strings-take,
}
use can_bridge_daemon.BinaryMessage.Client.{encode_client_payload, decode_client_payload}
use can_bridge_daemon.BinaryMessage.Packet.{encode_client, decode_client_from}
use can_bridge_daemon.BinaryMessage.Packet.Framing.{decode_packet-encode, length-encode_packet}

subscribe_payload :
    (ifaces : List String)
    → All FitsString ifaces
    → decode_client_payload
        (encode_client_payload (ClientBinaryRequest.subscribe ifaces)).0
        (encode_client_payload (ClientBinaryRequest.subscribe ifaces)).1
      ≡ ok (
        ClientBinaryRequest.subscribe (take (length ifaces % 65536) ifaces),
        strings_bytes (drop (length ifaces % 65536) ifaces),
      )
unfolding encode_client_payload decode_client_payload put_u16
subscribe_payload ifaces h =
    let k = length ifaces % 65536 in
    let first : get_strings k (strings_bytes ifaces)
        ≡ ok (take k ifaces, strings_bytes (drop k ifaces)) =
      simp append-nil at (get_strings-take k ifaces [] h (omega arith)) in
    rw (put_strings_lem (put_u16 [] k) ifaces h, put_u16)
      (rw ((Reads-u16 k (omega arith)).before (strings_bytes ifaces), ◌>>=◌)
        (rw (first, ◌>>=◌) refl))

-- A subscription whose names fit, but of any number of names, decodes without an error as the first
-- `len % 65536` of its names: the count is cast to `u16`, and the names behind it are dropped.
pub decode_client_from-subscribe :
    (ifaces : List String) (rest : List ℕ)
    → All FitsString ifaces
    → length (encode_client_payload (ClientBinaryRequest.subscribe ifaces)).1 < 2 ^ 32
    → decode_client_from (encode_client (ClientBinaryRequest.subscribe ifaces) ++ rest)
      ≡ ok (
          some (
            ClientBinaryRequest.subscribe (take (length ifaces % 65536) ifaces),
            length (encode_client (ClientBinaryRequest.subscribe ifaces)),
          ))
unfolding decode_client_from
decode_client_from-subscribe ifaces rest h short =
    let (t, payload) = encode_client_payload (ClientBinaryRequest.subscribe ifaces) in
    unfold encode_client in
    rw
      (
        decode_packet-encode t payload rest short,
        subscribe_payload ifaces h,
        length-encode_packet t payload,
      )
      refl

-- The error of a payload is the error of its packet.
packet_error :
    (req : ClientBinaryRequest) (rest : List ℕ) (e : DecodeError)
    → length (encode_client_payload req).1 < 2 ^ 32
    → decode_client_payload (encode_client_payload req).0 (encode_client_payload req).1 ≡ err e
    → decode_client_from (encode_client req ++ rest) ≡ err e
unfolding decode_client_from
packet_error req rest e short h =
    let (t, payload) = encode_client_payload req in
    unfold encode_client in rw (decode_packet-encode t payload rest short, h) refl

-- What `put_string` writes of any text.
put_string_cut :
    (out : List ℕ) (s : String) (k : ℕ)
    → min (length (as_bytes s)) max_u16 ≡ k
    → put_string out s ≡ out ++ (to_le_bytes 2 k ++ take k (as_bytes s))
unfolding put_string
put_string_cut out s k e = rw e (append_assoc out (to_le_bytes 2 k) (take k (as_bytes s)))

get_text_refused :
    (bs rest : List ℕ) (k : ℕ)
    → length bs ≡ k
    → from_utf8 bs ≡ none
    → get_text k (bs ++ rest) ≡ err utf8
unfolding get_text
get_text_refused bs rest k e h = rw (← e) (
    rw
      (
        le→ltb (length (bs ++ rest)) (length bs) (omega (arith, length-append bs rest)),
        take-append_left bs rest,
        h,
      )
      refl)

-- A first text that is cut to bytes that are no text.
hello_refused :
    (client protocol : String) (k : ℕ)
    → min (length (as_bytes client)) max_u16 ≡ k
    → k ≤ max_u16
    → from_utf8 (take k (as_bytes client)) ≡ none
    → decode_client_payload
        (encode_client_payload (ClientBinaryRequest.client_hello client protocol)).0
        (encode_client_payload (ClientBinaryRequest.client_hello client protocol)).1
      ≡ err utf8
unfolding encode_client_payload decode_client_payload get_string
hello_refused client protocol k e l h =
    let p = min (length (as_bytes protocol)) max_u16 in
    let tail = to_le_bytes 2 p ++ take p (as_bytes protocol) in
    rw (put_string_cut (put_string [] client) protocol p refl, put_string_cut [] client k e)
      (rw
        (
          append_assoc (to_le_bytes 2 k) (take k (as_bytes client)) tail,
          (Reads-u16 k (omega arith)).before (take k (as_bytes client) ++ tail),
          ◌>>=◌,
        )
        (rw
          (
            get_text_refused (take k (as_bytes client)) tail k
                (omega (arith, length-take k (as_bytes client))) h,
            ◌>>=◌,
          )
          refl))

cut_length :
    (pre post : String) (c : Char)
    → length (as_bytes pre) ≡ 65534
    → 128 ≤ code c
    → min (length (as_bytes (String.◌++◌ pre (String.◌∷◌ c post)))) max_u16
      ≡ length (as_bytes pre) + 1
cut_length pre post c at wide = rw as_bytes-append (
    omega (
      arith,
      length-append (as_bytes pre) (as_bytes (String.◌∷◌ c post)),
      as_bytes-cons_pos c post,
    ))

length-put_string-le : (out : List ℕ) (s : String) → length (put_string out s) ≤ length out + 65537
length-put_string-le out s =
    let k = min (length (as_bytes s)) max_u16 in
    rw (put_string_cut out s k refl, length-append)
      (omega
        (arith, length-append (to_le_bytes 2 k) (take k (as_bytes s)), length-take k (as_bytes s)))

hello_short :
    (client protocol : String)
    → length (encode_client_payload (ClientBinaryRequest.client_hello client protocol)).1 < 2 ^ 32
unfolding encode_client_payload
hello_short client protocol =
    omega
      (arith, length-put_string-le (put_string [] client) protocol, length-put_string-le [] client)

-- A `client_hello` whose client name has a character of several bytes across byte 65535 is encoded
-- without an error, and the packet is refused with a UTF-8 error: the name is cut inside the character.
pub decode_client_from_cut :
    (pre post protocol : String) (c : Char) (rest : List ℕ)
    → length (as_bytes pre) ≡ 65534
    → 128 ≤ code c
    → decode_client_from (
        encode_client
          (ClientBinaryRequest.client_hello (String.◌++◌ pre (String.◌∷◌ c post)) protocol)
        ++ rest)
      ≡ err utf8
decode_client_from_cut pre post protocol c rest at wide =
    let client = String.◌++◌ pre (String.◌∷◌ c post) in
    packet_error (ClientBinaryRequest.client_hello client protocol) rest utf8
      (hello_short client protocol)
      (hello_refused client protocol (length (as_bytes pre) + 1) (cut_length pre post c at wide)
        (omega arith) (from_utf8-take_cut pre post c wide))
