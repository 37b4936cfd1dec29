-- ===== src/BinaryMessage/Packet/Streams.antt =====
-- A stream of daemon packets, and how a client of the protocol reads it.
use can_bridge_daemon.Prelude.{
  ℕ, zero, suc, ◌^◌, ◌<◌, ◌≡◌, refl, ap, ◌∙◌, none, some, List, [], ◌∷◌, ◌++◌, append_assoc, All,
  length, drop, drop-append_left, Result, ok, err,
}
use can_bridge_daemon.BinaryMessage.Types.{DaemonBinaryResponse, DecodeError}
use can_bridge_daemon.BinaryMessage.Daemon.{encode_daemon_payload}
use can_bridge_daemon.BinaryMessage.Daemon.RoundTrip.{FitsDaemon}
use can_bridge_daemon.BinaryMessage.Packet.{encode_daemon, decode_daemon_from}
use can_bridge_daemon.BinaryMessage.Packet.RoundTrip.{decode_daemon_from-encode_daemon}

-- The packets of messages, one after the other.
unfoldable pub daemon_stream : List DaemonBinaryResponse → List ℕ
daemon_stream [] = []
daemon_stream (r ∷ rs) = encode_daemon r ++ daemon_stream rs

-- A message that comes whole out of its packet.
abbrev pub Receivable : DaemonBinaryResponse → Type 0
Receivable r = FitsDaemon r × (length (encode_daemon_payload r).1 < 2 ^ 32)

-- A message in front of what else is read.
abbrev pub in_front :
    DaemonBinaryResponse
    → Result DecodeError (List DaemonBinaryResponse × List ℕ)
    → Result DecodeError (List DaemonBinaryResponse × List ℕ)
in_front r (ok (rs, rest)) = ok (r ∷ rs, rest)
in_front r (err e) = err e

-- A client that calls `decode_daemon_from` as long as its buffer holds a packet, at most so many times: the
-- messages, and what is left of the buffer.
unfoldable pub receive_all : ℕ → List ℕ → Result DecodeError (List DaemonBinaryResponse × List ℕ)
receive_all zero buffer = ok ([], buffer)
receive_all (suc f) buffer = elim (decode_daemon_from buffer) [
  | err e ↦ err e
  | ok none ↦ ok ([], buffer)
  | ok (some (r, n)) ↦ in_front r (receive_all f (drop n buffer))
]

receive_one :
    (f : ℕ) (buffer : List ℕ) (r : DaemonBinaryResponse) (n : ℕ)
    → decode_daemon_from buffer ≡ ok (some (r, n))
    → receive_all (suc f) buffer ≡ in_front r (receive_all f (drop n buffer))
unfolding receive_all
receive_one f buffer r n e = rw (e, receive_all) refl

-- Each message once, in order, and what comes behind them is left.
pub receive_all-daemon_stream :
    (rs : List DaemonBinaryResponse) (rest : List ℕ)
    → All Receivable rs
    → receive_all (length rs) (daemon_stream rs ++ rest) ≡ ok (rs, rest)
unfolding receive_all daemon_stream
receive_all-daemon_stream [] rest h = refl
receive_all-daemon_stream (r ∷ rs) rest ((fits, short), h) =
    ap (receive_all (suc (length rs))) (append_assoc (encode_daemon r) (daemon_stream rs) rest)
    ∙ receive_one (length rs) (encode_daemon r ++ (daemon_stream rs ++ rest)) r
        (length (encode_daemon r))
        (decode_daemon_from-encode_daemon r (daemon_stream rs ++ rest) fits short)
    ∙ ap (λ b. in_front r (receive_all (length rs) b))
        (drop-append_left (encode_daemon r) (daemon_stream rs ++ rest))
    ∙ ap (in_front r) (receive_all-daemon_stream rs rest h)
