-- ===== src/SocketCan/Rx/Publishes.antt =====
-- What the reader of an interface publishes.
use can_bridge_daemon.Prelude.{
  ℕ, ◌≡◌, refl, sym, ap, ◌∙◌, true, false, String, Option, none, some, List, [], ◌∷◌, ◌++◌, foldl,
  map, append-nil, append_assoc, Result, ok, err,
}
use can_bridge_daemon.Frame.{FrameEvent}
use can_bridge_daemon.Service.{Ports, BridgeService, publish_frame, now_ms}
use can_bridge_daemon.SocketCan.{IdApi}
use can_bridge_daemon.SocketCan.Ids.{id_to_u32}
use can_bridge_daemon.SocketCan.Rx.{
  RxApi, rx_event, publish_now, publish_any, fd_read, classic_read, run_one_iface_rx_blocking,
}

-- An event but for its time.
abbrev pub untimed : FrameEvent → FrameEvent
untimed ev = record ev { ts_ms = 0 }

-- The bus but for the times.
abbrev pub bus : {W : Type 0} → BridgeService W → List FrameEvent
bus s = map untimed s.frames

map-append : {A B : Type 0} (f : A → B) (xs ys : List A) → map f (xs ++ ys) ≡ map f xs ++ map f ys
map-append f [] ys = refl
map-append f (x ∷ xs) ys = ap (λ zs. f x ∷ zs) (map-append f xs ys)

module _ {W : Type 0} (ports : Ports W) {ids : IdApi} (api : RxApi ids) (iface : String) where
  -- The events of the frames that were read, in order, without what failed or is no data frame.
  abbrev pub fd_events : List (Result String api.CanFdFrame) → List FrameEvent
  fd_events [] = []
  fd_events (ok frame ∷ reads) =
      rx_event iface (id_to_u32 ids (api.fd_id frame)) true (api.fd_payload frame) 0
      ∷ fd_events reads
  fd_events (err e ∷ reads) = fd_events reads

  abbrev pub any_event : Option api.DataFrame → List FrameEvent
  any_event none = []
  any_event (some frame) =
      rx_event iface (id_to_u32 ids (api.normal_id frame)) false (api.normal_payload frame) 0 ∷ []

  abbrev pub classic_events : List (Result String api.CanFrame) → List FrameEvent
  classic_events [] = []
  classic_events (ok frame ∷ reads) = any_event (api.any_frame frame) ++ classic_events reads
  classic_events (err e ∷ reads) = classic_events reads

  abbrev pub rx_events :
      Result String (List (Result String api.CanFdFrame))
      → Result String (List (Result String api.CanFrame))
      → List FrameEvent
  rx_events (ok reads) classic = fd_events reads
  rx_events (err e) (ok reads) = classic_events reads
  rx_events (err e) (err e') = []

  bus-publish_now :
      (ev : ℕ → FrameEvent) (s : BridgeService W)
      → bus (publish_now ports api iface ev s)
        ≡ bus s ++ (untimed (ev (now_ms ports s.world).0) ∷ [])
  unfolding publish_now publish_frame
  bus-publish_now ev s = map-append untimed s.frames (ev (now_ms ports s.world).0 ∷ [])

  bus-publish_any :
      (frame : Option api.DataFrame) (s : BridgeService W)
      → bus (publish_any ports api iface frame s) ≡ bus s ++ any_event frame
  bus-publish_any none s = sym (append-nil (bus s))
  bus-publish_any (some frame) s = bus-publish_now _ s

  bus-fd_reads :
      (reads : List (Result String api.CanFdFrame)) (s : BridgeService W)
      → bus (foldl (fd_read ports api iface) s reads) ≡ bus s ++ fd_events reads
  unfolding fd_read
  bus-fd_reads [] s = sym (append-nil (bus s))
  bus-fd_reads (ok frame ∷ reads) s =
      bus-fd_reads reads (fd_read ports api iface s (ok frame))
      ∙ ap (λ b. b ++ fd_events reads)
          (bus-publish_now
            (rx_event iface (id_to_u32 ids (api.fd_id frame)) true (api.fd_payload frame)) s)
      ∙ append_assoc (bus s) _ (fd_events reads)
  bus-fd_reads (err e ∷ reads) s = bus-fd_reads reads s

  bus-classic_reads :
      (reads : List (Result String api.CanFrame)) (s : BridgeService W)
      → bus (foldl (classic_read ports api iface) s reads) ≡ bus s ++ classic_events reads
  unfolding classic_read
  bus-classic_reads [] s = sym (append-nil (bus s))
  bus-classic_reads (ok frame ∷ reads) s =
      bus-classic_reads reads (publish_any ports api iface (api.any_frame frame) s)
      ∙ ap (λ b. b ++ classic_events reads) (bus-publish_any (api.any_frame frame) s)
      ∙ append_assoc (bus s) (any_event (api.any_frame frame)) (classic_events reads)
  bus-classic_reads (err e ∷ reads) s = bus-classic_reads reads s

  -- Whatever the sockets do, the reader of an interface publishes, but for the times, exactly one event for
  -- each data frame that it reads, in order, with the frame's id and payload: from the CAN-FD socket
  -- where it opens, else from the classic socket, else none.
  pub run_one_iface-bus :
      (fd : Result String (List (Result String api.CanFdFrame)))
      (classic : Result String (List (Result String api.CanFrame))) (s : BridgeService W)
      → bus (run_one_iface_rx_blocking ports api iface fd classic s) ≡ bus s ++ rx_events fd classic
  unfolding run_one_iface_rx_blocking
  run_one_iface-bus (ok reads) classic s = bus-fd_reads reads s
  run_one_iface-bus (err e) (ok reads) s = bus-classic_reads reads s
  run_one_iface-bus (err e) (err e') s = sym (append-nil (bus s))
