-- ===== src/ExampleClient.antt =====
-- examples/rust/tcp_binary_client.rs: its frames, and what it expects of the daemon. The crate `bytes`, by which
-- it writes integers, is a parameter.
pub mod Mismatch
use can_bridge_daemon.Prelude.{
  ℕ, ◌+◌, ◌*◌, ◌/◌, ◌%◌, ◌^◌, ◌<◌, ◌≡◌, Bool, String, List, [], ◌∷◌, ◌++◌, length, take, drop,
  Result, ok, err, ltb, ◌==◌, ◌>>=◌, if◌then◌else◌,
}
use can_bridge_daemon.Text.{as_bytes}
use can_bridge_daemon.BinaryMessage.Packet.{magic, bytes_eq}

-- `BufMut::put_u16` and `BufMut::put_u32`.
pub record BufMut : Type 0 where
  pub put_u16 : List ℕ → ℕ → List ℕ
  pub put_u32 : List ℕ → ℕ → List ℕ

-- An integer of two and of four bytes with the first byte the highest.
abbrev pub to_be16 : ℕ → List ℕ
to_be16 v = v / 256 % 256 ∷ v % 256 ∷ []

abbrev pub to_be32 : ℕ → List ℕ
to_be32 v = v / 2 ^ 24 % 256 ∷ v / 2 ^ 16 % 256 ∷ v / 2 ^ 8 % 256 ∷ v % 256 ∷ []

-- What the crate documents: both append the integer in big-endian order.
pub record BufMutLaws (buf : BufMut) : Type 0 where
  pub put_u16_lem : (out : List ℕ) (v : ℕ) → v < 2 ^ 16 → buf.put_u16 out v ≡ out ++ to_be16 v
  pub put_u32_lem : (out : List ℕ) (v : ℕ) → v < 2 ^ 32 → buf.put_u32 out v ≡ out ++ to_be32 v

abbrev pub client_header_len : ℕ
client_header_len = 8

module _ (buf : BufMut) where
  unfoldable pub pack_str : String → List ℕ
  pack_str s = buf.put_u16 [] (length (as_bytes s) % 2 ^ 16) ++ as_bytes s

  unfoldable pub encode_frame : ℕ → ℕ → List ℕ → List ℕ
  encode_frame msg_type flags payload =
      let out = [] ++ magic in
      let out = buf.put_u16 out msg_type in
      let out = buf.put_u16 out flags in
      let out = buf.put_u32 out (length payload % 2 ^ 32) in out ++ payload

pub data ClientError : Type 0 where
  eof : ClientError
  bad_magic : List ℕ → ClientError

-- A stream is the bytes that the daemon sends before it closes the connection.
unfoldable pub read_exact : ℕ → List ℕ → Result ClientError (List ℕ × List ℕ)
read_exact n stream = if ltb (length stream) n then err eof else ok (take n stream, drop n stream)

-- `u16::from_be_bytes` and `u32::from_be_bytes` at an offset of the header
abbrev pub from_be : List ℕ → ℕ → ℕ
from_be [] acc = acc
from_be (b ∷ bytes) acc = from_be bytes (acc * 256 + b)

-- What follows the magic: the type, the flags and the payload of a message, and the rest of the stream. No
-- bytes are read where `len` is 0.
unfoldable pub read_body : List ℕ → Result ClientError ((ℕ × ℕ × List ℕ) × List ℕ)
unfolding read_exact
read_body stream = do
  (hdr, stream) ← read_exact client_header_len stream
  let msg_type = from_be (take 2 hdr) 0
  let flags = from_be (take 2 (drop 2 hdr)) 0
  let len = from_be (take 4 (drop 4 hdr)) 0
  (payload, stream) ← read_exact len stream
  ok ((msg_type, flags, payload), stream)

unfoldable pub read_msg : List ℕ → Result ClientError ((ℕ × ℕ × List ℕ) × List ℕ)
unfolding read_body
read_msg stream = do
  (found, stream) ← read_exact 4 stream
  if bytes_eq found magic then read_body stream else err (bad_magic found)

-- The client's `main`, on the types of the messages that it reads: where it stands, and the frame that it writes
-- next. It bails out of `failed`.
pub data ClientPhase : Type 0 where
  greeting listing subscribing streaming failed : ClientPhase

abbrev pub expect : ℕ → ℕ → ClientPhase → List ℕ → ClientPhase × List ℕ
expect msg_type wanted next frame =
    if msg_type == wanted then (next, frame) else (ClientPhase.failed, [])

module _ (buf : BufMut) where
  -- The hello that is written first.
  unfoldable pub hello_frame : List ℕ
  unfolding pack_str encode_frame
  hello_frame = encode_frame buf 101 0 (pack_str buf "rust-tcp-binary" ++ pack_str buf "0.1.0")

  unfoldable pub on_message : ClientPhase → ℕ → ClientPhase × List ℕ
  on_message ClientPhase.greeting msg_type =
      expect msg_type 1 ClientPhase.listing (encode_frame buf 103 0 [])
  on_message ClientPhase.listing msg_type =
      expect msg_type 3 ClientPhase.subscribing (encode_frame buf 104 0 (pack_str buf "can0"))
  on_message ClientPhase.subscribing msg_type = expect msg_type 4 ClientPhase.streaming []
  on_message ClientPhase.streaming msg_type = (ClientPhase.streaming, [])
  on_message ClientPhase.failed msg_type = (ClientPhase.failed, [])
