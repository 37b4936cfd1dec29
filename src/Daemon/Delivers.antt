-- ===== src/Daemon/Delivers.antt =====
-- What a frame of the bus of CAN becomes: an event at every client.
use can_bridge_daemon.Prelude.{
  ℕ, ◌≡◌, refl, sym, ap, subst, some, true, false, String, Option, List, [], ◌∷◌, ◌++◌, length, ok,
  if◌then◌else◌,
}
use can_bridge_daemon.Protocol.{DaemonResponse, Serde}
use can_bridge_daemon.Frame.{FrameEvent}
use can_bridge_daemon.Service.{Ports, new, now_ms, publish_frame}
use can_bridge_daemon.SocketCan.{IdApi}
use can_bridge_daemon.SocketCan.Ids.{id_to_u32}
use can_bridge_daemon.SocketCan.Rx.{
  RxApi, rx_event, publish_now, publish_any, fd_read, classic_read,
}
use can_bridge_daemon.FakeGenerator.{payload, emit}
use can_bridge_daemon.BinarySession.{Texts}
use can_bridge_daemon.TcpJson.Connection.{is_some}
use can_bridge_daemon.Writer.{event, running}
use can_bridge_daemon.Writer.Delivery.{as_items, selected, take_events, written_with}
use can_bridge_daemon.Daemon.{Kind, Client, hear}
use can_bridge_daemon.Daemon.Kinds.{SessionKind, session_kinds, session_laws}

-- What is published is the one event, and the writer of a client that runs, once it has written without an error what it
-- takes of the events that wait and of this one, has written this one exactly if its session selects it,
-- behind those of the waiting events that it selects.
abbrev pub Delivered :
    {W K : Type 0} (kinds : K → Kind W) → FrameEvent → List FrameEvent → Client kinds → Type 0
Delivered kinds ev evs client =
    let transport = (kinds client.kind).transport in
    (evs ≡ ev ∷ [])
    × ((take_events transport (length (client.connection.backlog ++ evs))
          (hear kinds evs client).connection).written
        ≡ client.connection.written
          ++ as_items (selected transport client.connection.reader client.connection.backlog)
          ++ (if transport.selects client.connection.reader ev then event ev ∷ [] else []))

one-Delivered :
    {W K : Type 0} (kinds : K → Kind W) (ev : FrameEvent) (evs : List FrameEvent)
    (client : Client kinds)
    → ((e : FrameEvent) → (kinds client.kind).transport.serializes (event e) ≡ true)
    → client.connection.writer ≡ running
    → evs ≡ ev ∷ []
    → Delivered kinds ev evs client
one-Delivered kinds ev evs client can now one =
    subst (λ l. Delivered kinds ev l client) (sym one)
      (refl, written_with (kinds client.kind).transport can ev client.connection now)

module _ {W : Type 0} (ports : Ports W) (tcp_texts ws_texts : Texts) (serde : Serde)
    (to_string : DaemonResponse → Option String)
    (always : (response : DaemonResponse) → is_some (to_string response) ≡ true) where
  abbrev pub kinds_of : SessionKind → Kind W
  kinds_of = session_kinds ports tcp_texts ws_texts serde to_string

  -- Where every JSON message is serialized: a CAN-FD frame that a reader gets, a classic data frame that a reader gets,
  -- and a frame that the generator makes are each published as one event, of its interface, its id and
  -- payload (or those of the generator) and the time of its publication; and the writer of any client
  -- of the daemon that runs, once it has written without an error what it takes of the events that
  -- wait and of this one, has written this one exactly if its session selects it, behind those of the
  -- waiting events that it selects.
  pub sources-Delivered :
      {ids : IdApi} (api : RxApi ids) (iface : String) (fd : api.CanFdFrame) (found : api.CanFrame)
      (frame : api.DataFrame) (counter idx : ℕ) (w : W) (client : Client kinds_of)
      → api.any_frame found ≡ some frame
      → client.connection.writer ≡ running
      → Delivered kinds_of
          (rx_event iface
            (id_to_u32 ids (api.fd_id fd))
            true
            (api.fd_payload fd)
            (now_ms ports w).0)
          (fd_read ports api iface (new w) (ok fd)).frames
          client
        × Delivered kinds_of
            (rx_event iface
              (id_to_u32 ids (api.normal_id frame))
              false
              (api.normal_payload frame)
              (now_ms ports w).0)
            (classic_read ports api iface (new w) (ok found)).frames
            client
        × Delivered kinds_of
            (rx_event iface 0x123 false (payload counter idx) (now_ms ports w).0)
            (emit ports counter idx iface (new w)).frames
            client
  unfolding fd_read classic_read publish_now publish_frame new now_ms emit
  sources-Delivered api iface fd found frame counter idx w client normal now =
      let laws = session_laws ports tcp_texts ws_texts serde to_string always client.kind in
      let can : (e : FrameEvent) → (kinds_of client.kind).transport.serializes (event e) ≡ true =
        λ e. laws.serializes (event e) in
      (
        one-Delivered kinds_of _ _ client can now refl,
        one-Delivered kinds_of _ _ client can now
            (ap (λ o. (publish_any ports api iface o (new w)).frames) normal),
        one-Delivered kinds_of _ _ client can now refl,
      )
