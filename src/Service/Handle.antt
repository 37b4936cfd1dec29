-- ===== src/Service/Handle.antt =====
-- What `BridgeService::handle` promises its transports.
use can_bridge_daemon.Prelude.{
  ℕ, ◌≡◌, ◌⊎◌, inl, inr, refl, ap, true, false, String, none, some, [], ◌∷◌, ◌++◌, All, Result, ok,
  err, Result-cases,
}
use can_bridge_daemon.Text.Utf8.{IsByte}
use can_bridge_daemon.Protocol.{ClientRequest, DaemonResponse}
use can_bridge_daemon.Frame.{FrameEvent, Direction}
use can_bridge_daemon.Hex.{bytes_to_hex_lower, hex_to_bytes}
use can_bridge_daemon.Hex.RoundTrip.{hex_to_bytes-bytes_to_hex_lower}
use can_bridge_daemon.Service.{
  TxFrame, Ports, BridgeService, now_ms, after_send, send_frame, handle,
}

-- The frame that a successful send publishes at a time.
abbrev pub sent_event : TxFrame → ℕ → FrameEvent
sent_event f ts = record {
  ts_ms = ts;
  iface = f.iface;
  dir = Direction.tx;
  id = f.id;
  is_fd = f.is_fd;
  bytes = f.bytes;
}

module _ {W : Type 0} (ports : Ports W) where
  -- What becomes of a frame that the port answers with `r`, the world being `s.world` then: either the
  -- port took it, the answer is positive and the frame is published, or the port refused it, the answer is
  -- negative with the port's text, and the service is as it was.
  abbrev pub Outcome :
      TxFrame
      → Result String (Unit {0})
      → BridgeService W
      → DaemonResponse × BridgeService W
      → Type 0
  Outcome f r s (answer, s') =
      ((r ≡ ok tt)
        × (answer ≡ DaemonResponse.send_ack true none)
        × (s'.frames ≡ s.frames ++ (sent_event f (now_ms ports s.world).0 ∷ [])))
      ⊎ ((e : String) × (r ≡ err e) × (answer ≡ DaemonResponse.send_ack false (some e)) × (s' ≡ s))

  pub after_send_lem :
      (f : TxFrame) (r : Result String (Unit {0})) (s : BridgeService W)
      → Outcome f r s (after_send ports f r s)
  unfolding after_send
  after_send_lem f (ok x) s = inl (refl, refl, refl)
  after_send_lem f (err e) s = inr (e, refl, refl, refl)

  -- The request that the binary transports make of a frame whose payload is bytes: the port is handed
  -- exactly that frame, and the answer and the bus follow the port's answer.
  pub handle-send_frame :
      (f : TxFrame) (s : BridgeService W)
      → All IsByte f.bytes
      → Outcome f
          (ports.send f s.world).0
          (record s { world = (ports.send f s.world).1 })
          (handle ports
            (ClientRequest.send_frame f.iface f.id f.is_fd f.brs f.esi (bytes_to_hex_lower f.bytes))
            s)
  unfolding handle
  handle-send_frame f s h =
      rw (hex_to_bytes-bytes_to_hex_lower f.bytes h, handle)
        (after_send_lem f (ports.send f s.world).0 (record s { world = (ports.send f s.world).1 }))

  -- A request that publishes: a `send_frame` whose text is the payload of the event.
  abbrev pub Published : ClientRequest → BridgeService W → DaemonResponse × BridgeService W → Type 0
  Published req s (answer, s') =
      (f : TxFrame) × (hex : String) × (ts : ℕ) × (req
        ≡ ClientRequest.send_frame f.iface f.id f.is_fd f.brs f.esi hex)
      × (hex_to_bytes hex ≡ ok f.bytes)
      × (answer ≡ DaemonResponse.send_ack true none)
      × (s'.frames ≡ s.frames ++ (sent_event f ts ∷ []))

  -- Whatever the request, either the bus is as it was, or the request is a `send_frame` that is answered with
  -- a positive acknowledgement, and the bus has exactly one event more, with the bytes of the
  -- request's text.
  pub handle-frames :
      (req : ClientRequest) (s : BridgeService W)
      → ((handle ports req s).1.frames ≡ s.frames) ⊎ Published req s (handle ports req s)
  unfolding handle
  handle-frames (ClientRequest.send_frame iface id is_fd brs esi hex) s =
      elim (Result-cases (hex_to_bytes hex)) [
        | inr (e, p) ↦ inl (rw (p, handle) refl)
        | inl (bytes, p) ↦
            rw (p, handle)
              (published
                (record {
                  iface = iface;
                  id = id;
                  is_fd = is_fd;
                  brs = brs;
                  esi = esi;
                  bytes = bytes;
                })
                p)
      ]
    where
      published :
          (f : TxFrame)
          → hex_to_bytes hex ≡ ok f.bytes
          → ((send_frame ports f s).1.frames ≡ s.frames)
            ⊎ Published
                (ClientRequest.send_frame f.iface f.id f.is_fd f.brs f.esi hex)
                s
                (send_frame ports f s)
      published f p =
          elim (after_send_lem f (ports.send f s.world).0
            (record s { world = (ports.send f s.world).1 })) [
              | inl (r, a, b) ↦
                  inr (f, hex, (now_ms ports (ports.send f s.world).1).0, refl, p, a, b)
              | inr (e, r, a, b) ↦ inl (ap (λ (t : BridgeService W). t.frames) b)
            ]
  handle-frames ClientRequest.list_ifaces s = inl refl
  handle-frames _ s = inl refl
