-- ===== src/Service/Publishes.antt =====
-- What a request puts on the bus: frames that the port has taken.
use can_bridge_daemon.Prelude.{
  ◌≡◌, inl, inr, refl, [], ◌∷◌, ◌++◌, String, Result, ok, err, ◌⊎◌, Result-cases,
}
use can_bridge_daemon.Protocol.{ClientRequest}
use can_bridge_daemon.Frame.{FrameEvent}
use can_bridge_daemon.Hex.{hex_to_bytes}
use can_bridge_daemon.Service.{
  TxFrame, Ports, BridgeService, now_ms, after_send, publish_frame, send_frame, handle,
}
use can_bridge_daemon.Service.Handle.{sent_event}

module _ {W : Type 0} (ports : Ports W) where
  -- Between two worlds the port was handed a frame and took it, and the clock was read; the event is that of the
  -- frame at the time that was read.
  abbrev pub Took : W → W → FrameEvent → Type 0
  Took w w' ev =
      (f : TxFrame) × ((ports.send f w).0 ≡ ok tt)
      × (ev ≡ sent_event f (now_ms ports (ports.send f w).1).0)
      × (w' ≡ (now_ms ports (ports.send f w).1).1)

  -- The bus is as it was, or has one event more, of a frame that the port took in between.
  abbrev pub Publishes : BridgeService W → BridgeService W → Type 0
  Publishes s t =
      (t.frames ≡ s.frames)
      ⊎ ((ev : FrameEvent) × (t.frames ≡ s.frames ++ (ev ∷ [])) × Took s.world t.world ev)

  pub Publishes-none : (s t : BridgeService W) → t.frames ≡ s.frames → Publishes s t
  Publishes-none s t e = inl e

  after_send-Publishes :
      (f : TxFrame) (r : Result String (Unit {0})) (s : BridgeService W)
      → (ports.send f s.world).0 ≡ r
      → Publishes s (after_send ports f r (record s { world = (ports.send f s.world).1 })).1
  unfolding after_send publish_frame now_ms
  after_send-Publishes f (err e) s taken = inl refl
  after_send-Publishes f (ok x) s taken = inr (_, refl, (f, taken, refl, refl))

  send_frame-Publishes : (f : TxFrame) (s : BridgeService W) → Publishes s (send_frame ports f s).1
  unfolding send_frame
  send_frame-Publishes f s = after_send-Publishes f (ports.send f s.world).0 s refl

  -- Whatever the request, the bus has no event more but that of a frame that the port took.
  pub handle-Publishes :
      (req : ClientRequest) (s : BridgeService W) → Publishes s (handle ports req s).1
  unfolding handle
  handle-Publishes (ClientRequest.ping id) s = Publishes-none s s refl
  handle-Publishes ClientRequest.list_ifaces s =
      Publishes-none s (handle ports ClientRequest.list_ifaces s).1 refl
  handle-Publishes (ClientRequest.client_hello client protocol) s = Publishes-none s s refl
  handle-Publishes (ClientRequest.subscribe ifaces filters) s = Publishes-none s s refl
  handle-Publishes ClientRequest.unsubscribe s = Publishes-none s s refl
  handle-Publishes (ClientRequest.send_frame iface id is_fd brs esi hex) s =
      elim (Result-cases (hex_to_bytes hex)) [
        | inr (e, p) ↦ rw (p, handle) (Publishes-none s s refl)
        | inl (bytes, p) ↦
            rw (p, handle)
              (send_frame-Publishes
                (record {
                  iface = iface;
                  id = id;
                  is_fd = is_fd;
                  brs = brs;
                  esi = esi;
                  bytes = bytes;
                })
                s)
      ]
