-- ===== src/Startup/Sends.antt =====
-- A request of a client, through the service, to the SocketCAN transmitter.
use Prim.Native.String
use can_bridge_daemon.Prelude.{
  ℕ, ◌≡◌, ◌⊎◌, inl, inr, refl, sym, ap, ◌∙◌, subst, Bool, true, false, String, Option, none, some,
  [], ◌∷◌, ◌++◌, All, Result, ok, err,
}
use can_bridge_daemon.Text.Utf8.{IsByte}
use can_bridge_daemon.Protocol.{ClientRequest, DaemonResponse}
use can_bridge_daemon.Hex.{bytes_to_hex_lower}
use can_bridge_daemon.Hex.RoundTrip.{hex_to_bytes-bytes_to_hex_lower}
use can_bridge_daemon.Service
use can_bridge_daemon.Service.{
  TxFrame, Ports, BridgeService, now_ms, publish_frame, after_send, handle,
}
use can_bridge_daemon.Service.Handle.{sent_event}
use can_bridge_daemon.SocketCan.{IdApi, IdLaws, CanId, FrameApi, FrameLaws, SocketApi}
use can_bridge_daemon.SocketCan.Ids.{id_to_u32}
use can_bridge_daemon.SocketCan.Tx.{
  TxError, fd_flags, written, write_opened_fd, write_opened_classic, send_fd, send_classic,
  send_blocking,
}
use can_bridge_daemon.SocketCan.Tx.Accepts.{
  Acceptable, Acceptable-cases, SentAs, send_blocking_accepts, send_blocking_refuses,
}
use can_bridge_daemon.SocketCan.Tx.Display.{tx_send, display_tx_error, displayed}
use can_bridge_daemon.Discovery.{NetlinkApi}
use can_bridge_daemon.Startup.{daemon_ports}

-- The request of a client for a frame of bytes.
abbrev pub send_request : TxFrame → ClientRequest
send_request f =
    ClientRequest.send_frame f.iface f.id f.is_fd f.brs f.esi (bytes_to_hex_lower f.bytes)

module _ {W : Type 0} (ports : Ports W) where
  -- What the port's answer makes of the request.
  abbrev pub answered :
      TxFrame → Result String (Unit {0}) × W → BridgeService W → DaemonResponse × BridgeService W
  answered f (r, w) s = after_send ports f r (record s { world = w })

  pub handle-answered :
      (f : TxFrame) (s : BridgeService W)
      → All IsByte f.bytes
      → handle ports (send_request f) s ≡ answered f (ports.send f s.world) s
  unfolding handle Service.send_frame
  handle-answered f s h = rw (hex_to_bytes-bytes_to_hex_lower f.bytes h, handle) refl

-- What a socket that is opened with `opened` and written by `write` makes of the request for a frame: it does not open,
-- or it opens and the write fails, and the acknowledgement is negative with a text, nothing is
-- published and the world is as the socket has left it; or the frame is written, acknowledged and
-- published as one event of it at the time that is read behind the write.
abbrev pub Written :
    {W S : Type 0}
    → Ports W
    → String
    → Result String S × W
    → (S → W → Result String (Unit {0}) × W)
    → TxFrame
    → BridgeService W
    → DaemonResponse × BridgeService W
    → Type 0
Written {W} {S} ports not_opened opened write f s result =
    ((e : String) × (opened.0 ≡ err e)
      × (result ≡ (DaemonResponse.send_ack false (some not_opened), record s { world = opened.1 })))
    ⊎ ((sock : S) × (e : String) × (opened.0 ≡ ok sock)
        × ((write sock opened.1).0 ≡ err e)
        × (result ≡ (
          DaemonResponse.send_ack false (some e),
          record s { world = (write sock opened.1).1 },
        )))
    ⊎ ((sock : S) × (opened.0 ≡ ok sock)
        × ((write sock opened.1).0 ≡ ok tt)
        × (result.0 ≡ DaemonResponse.send_ack true none)
        × (result.1.frames
            ≡ s.frames ++ (sent_event f (now_ms ports (write sock opened.1).1).0 ∷ [])))

module _ {ids : IdApi} (frames : FrameApi ids) where
  -- The flags of a CAN-FD frame by its `brs` and `esi`.
  abbrev pub flags_of : Bool → Bool → frames.FdFlags
  flags_of false false = frames.empty_flags
  flags_of true false = frames.union frames.empty_flags frames.brs_flag
  flags_of false true = frames.union frames.empty_flags frames.esi_flag
  flags_of true true =
      frames.union (frames.union frames.empty_flags frames.brs_flag) frames.esi_flag

  fd_flags-flags_of : (brs esi : Bool) → fd_flags frames brs esi ≡ flags_of brs esi
  unfolding fd_flags
  fd_flags-flags_of false false = refl
  fd_flags-flags_of true false = refl
  fd_flags-flags_of false true = refl
  fd_flags-flags_of true true = refl

module _ {W : Type 0} {ids : IdApi} (ports : Ports W) (frames : FrameApi ids)
    (sockets : SocketApi frames W) where
  -- A frame that the bus can carry: it is built of its kind, with an id that reads back as its own, its payload and its
  -- flags, and written to its interface over a socket of its kind.
  abbrev pub Carried : Bool → TxFrame → BridgeService W → DaemonResponse × BridgeService W → Type 0
  Carried true f s result =
      (i : CanId ids) × (frame : frames.CanFdFrame) × (id_to_u32 ids i ≡ f.id)
      × (frames.fd_with_flags i f.bytes (flags_of frames f.brs f.esi) ≡ some frame)
      × Written ports (String.◌++◌ "open CanFdSocket(" (String.◌++◌ f.iface ")"))
          (sockets.open_fd f.iface s.world) (λ sock w. sockets.write_fd sock frame w) f s result
  Carried false f s result =
      (i : CanId ids) × (frame : frames.ClassicFrame) × (id_to_u32 ids i ≡ f.id)
      × (frames.classic_new i f.bytes ≡ some frame)
      × Written ports (String.◌++◌ "open CanSocket(" (String.◌++◌ f.iface ")"))
          (sockets.open_classic f.iface s.world) (λ sock w. sockets.write_classic sock frame w) f s
          result

  -- The socket is open.
  written_lem :
      {S : Type 0} (text : String) (sock : S) (w : W) (write : S → W → Result String (Unit {0}) × W)
      (f : TxFrame) (s : BridgeService W) (out : Result String (Unit {0}) × W)
      → write sock w ≡ out
      → Written ports text
          (ok sock, w)
          write
          f
          s
          (answered ports f (displayed frames sockets (written frames sockets (write sock w))) s)
  unfolding after_send publish_frame now_ms display_tx_error
  written_lem text sock w write f s (err e, w') q =
      inr (inl (sock, e, refl, ap (λ r. r.0) q, rw q refl))
  written_lem text sock w write f s (ok x, w') q =
      inr (inr (sock, refl, ap (λ r. r.0) q, rw q refl, rw q refl))

  fd_lem :
      (frame : frames.CanFdFrame) (f : TxFrame) (s : BridgeService W)
      (opened : Result String sockets.FdSocket × W)
      → Written ports
          (String.◌++◌ "open CanFdSocket(" (String.◌++◌ f.iface ")"))
          opened
          (λ sock w. sockets.write_fd sock frame w)
          f
          s
          (answered ports f
            (displayed frames sockets (write_opened_fd frames sockets f.iface frame opened))
            s)
  unfolding after_send display_tx_error
  fd_lem frame f s (err e, w) = inl (e, refl, refl)
  fd_lem frame f s (ok sock, w) =
      written_lem _ sock w (λ sock w. sockets.write_fd sock frame w) f s _ refl

  classic_lem :
      (frame : frames.ClassicFrame) (f : TxFrame) (s : BridgeService W)
      (opened : Result String sockets.ClassicSocket × W)
      → Written ports
          (String.◌++◌ "open CanSocket(" (String.◌++◌ f.iface ")"))
          opened
          (λ sock w. sockets.write_classic sock frame w)
          f
          s
          (answered ports f
            (displayed frames sockets (write_opened_classic frames sockets f.iface frame opened))
            s)
  unfolding after_send display_tx_error
  classic_lem frame f s (err e, w) = inl (e, refl, refl)
  classic_lem frame f s (ok sock, w) =
      written_lem _ sock w (λ sock w. sockets.write_classic sock frame w) f s _ refl

  SentAs-Carried :
      (k : Bool) (f : TxFrame) (s : BridgeService W) (r : Result TxError (Unit {0}) × W)
      → SentAs frames sockets k f s.world r
      → Carried k f s (answered ports f (displayed frames sockets r) s)
  unfolding send_fd send_classic
  SentAs-Carried true f s r (i, frame, same, made, e) = (
    i,
    frame,
    same,
    ap (frames.fd_with_flags i f.bytes) (sym (fd_flags-flags_of frames f.brs f.esi)) ∙ made,
    rw e (fd_lem frame f s (sockets.open_fd f.iface s.world)),
  )
  SentAs-Carried false f s r (i, frame, same, made, e) =
      (i, frame, same, made, rw e (classic_lem frame f s (sockets.open_classic f.iface s.world)))

module _ {W : Type 0} {ids : IdApi} (netlink : NetlinkApi W) (frames : FrameApi ids)
    (sockets : SocketApi frames W) (clock : W → Option ℕ × W) where
  abbrev the_ports : Ports W
  the_ports = daemon_ports netlink frames sockets clock

  refuses :
      (f : TxFrame) (s : BridgeService W)
      → All IsByte f.bytes
      → ¬ Acceptable f
      → (message : String) × (handle (daemon_ports netlink frames sockets clock) (send_request f) s
          ≡ (DaemonResponse.send_ack false (some message), s))
  unfolding daemon_ports tx_send after_send
  refuses f s bytes refused =
      let (e, same) = send_blocking_refuses frames sockets f s.world refused in
      (
        display_tx_error e,
        handle-answered the_ports f s bytes
            ∙ ap (λ r. answered the_ports f (displayed frames sockets r) s) same,
      )

  accepts :
      IdLaws ids
      → FrameLaws frames
      → (f : TxFrame) (s : BridgeService W) → All IsByte f.bytes
      → Acceptable f
      → Carried
          (daemon_ports netlink frames sockets clock)
          frames
          sockets
          f.is_fd
          f
          s
          (handle (daemon_ports netlink frames sockets clock) (send_request f) s)
  unfolding daemon_ports tx_send
  accepts id_laws laws f s bytes fits =
      subst (Carried the_ports frames sockets f.is_fd f s)
        (sym (handle-answered the_ports f s bytes))
        (SentAs-Carried the_ports frames sockets f.is_fd f s
          (send_blocking frames sockets f s.world)
          (send_blocking_accepts frames sockets id_laws laws f s.world fits))

  -- What the whole daemon does with a client's frame of bytes, over the documented behaviour of the crate. A frame
  -- that the bus can carry is built of its kind, with an id that reads back as its own, its payload and
  -- the flags that it has, and written to its interface: where the socket does not open, or the write
  -- fails, the client gets a negative acknowledgement with the text, and nothing is published; where it
  -- is written, a positive one, and one tx event of the frame is published. Any other frame is refused:
  -- the client gets a negative acknowledgement with a text, nothing is published, and the service is as
  -- it was, its world included.
  pub handle-daemon_ports :
      IdLaws ids
      → FrameLaws frames
      → (f : TxFrame) (s : BridgeService W) → All IsByte f.bytes
      → (Acceptable f
          × Carried
              (daemon_ports netlink frames sockets clock)
              frames
              sockets
              f.is_fd
              f
              s
              (handle (daemon_ports netlink frames sockets clock) (send_request f) s))
        ⊎ ((¬ Acceptable f)
            × ((message : String) × (handle
                    (daemon_ports netlink frames sockets clock)
                    (send_request f)
                    s
                  ≡ (DaemonResponse.send_ack false (some message), s))))
  handle-daemon_ports id_laws laws f s bytes = elim (Acceptable-cases frames sockets f) [
    | inl fits ↦ inl (fits, accepts id_laws laws f s bytes fits)
    | inr refused ↦ inr (refused, refuses f s bytes refused)
  ]
