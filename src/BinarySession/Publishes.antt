-- ===== src/BinarySession/Publishes.antt =====
-- What the turns of a binary session put on the bus.
use can_bridge_daemon.Prelude.{◌≡◌, refl, sym, ap, ◌∙◌, subst, List, drop}
use can_bridge_daemon.BinaryMessage.Types.{ClientBinaryRequest, DaemonBinaryResponse}
use can_bridge_daemon.Protocol.{ClientRequest}
use can_bridge_daemon.Hex.{bytes_to_hex_lower}
use can_bridge_daemon.Service.{Ports, BridgeService}
use can_bridge_daemon.Service.Publishes.{Publishes, Publishes-none, handle-Publishes}
use can_bridge_daemon.BinarySession.{Texts, Session, dispatch}
use can_bridge_daemon.BinarySession.Turns.{Reads, receives, requests, greets, says, moves}
use can_bridge_daemon.BinarySession.Reader.{Sets, subscribes, unsubscribes, ReaderTurns}
use can_bridge_daemon.Writer.Reader.{Reader, state_of, whole, sets, replies}

module _ {W : Type 0} (ports : Ports W) (texts : Texts) where
  dispatch-Publishes :
      (req : ClientBinaryRequest) (s : Session W)
      → Publishes ports s.service (dispatch ports texts req s).service
  unfolding dispatch
  dispatch-Publishes (ClientBinaryRequest.ping id) s = Publishes-none ports s.service s.service refl
  dispatch-Publishes ClientBinaryRequest.list_ifaces s =
      handle-Publishes ports ClientRequest.list_ifaces s.service
  dispatch-Publishes (ClientBinaryRequest.subscribe ifaces) s =
      Publishes-none ports s.service s.service refl
  dispatch-Publishes ClientBinaryRequest.unsubscribe s =
      Publishes-none ports s.service s.service refl
  dispatch-Publishes (ClientBinaryRequest.send_frame iface id is_fd brs esi bytes) s =
      handle-Publishes ports
        (ClientRequest.send_frame iface id is_fd brs esi (bytes_to_hex_lower bytes)) s.service
  dispatch-Publishes (ClientBinaryRequest.client_hello client protocol) s =
      Publishes-none ports s.service s.service refl

  same_service :
      (s s' t : Session W) → s' ≡ t → t.service ≡ s.service → Publishes ports s.service s'.service
  same_service s s' t e same =
      Publishes-none ports s.service s'.service
        (ap (λ u. u.service.frames) e ∙ ap (λ (b : BridgeService W). b.frames) same)

  Reads-Publishes :
      (s : Session W) (rs : List DaemonBinaryResponse) (s' : Session W)
      → Reads ports texts s rs s'
      → Publishes ports s.service s'.service
  Reads-Publishes s rs s' (receives bytes e none_said) = same_service s s' _ e refl
  Reads-Publishes s rs s' (requests req n d e said) =
      subst (λ (t : Session W). Publishes ports s.service t.service) (sym e)
        (dispatch-Publishes req (record s { receive_buffer = drop n s.receive_buffer }))
  Reads-Publishes s rs s' (greets req n p d e) = same_service s s' _ e refl
  Reads-Publishes s rs s' (says e) = same_service s s' _ e refl
  Reads-Publishes s rs s' (moves p e none_said) = same_service s s' _ e refl

  Sets-Publishes :
      (s : Session W) (response : DaemonBinaryResponse) (s' : Session W)
      → Sets s response s'
      → Publishes ports s.service s'.service
  Sets-Publishes s response s' (subscribes ifaces n d r e) = same_service s s' _ e refl
  Sets-Publishes s response s' (unsubscribes n d r e) = same_service s s' _ e refl

  -- A turn of the reader puts no event on the bus but of a frame that the port took.
  pub ReaderTurns-Publishes :
      (r : Reader (Session W) DaemonBinaryResponse) (rs : List DaemonBinaryResponse)
      (r' : Reader (Session W) DaemonBinaryResponse)
      → ReaderTurns ports texts r rs r'
      → Publishes ports (state_of r).service (state_of r').service
  ReaderTurns-Publishes r rs r' (whole s s' read e e') = rw (e, e') (Reads-Publishes s rs s' read)
  ReaderTurns-Publishes r rs r' (sets s s' response set e e' none_said) =
      rw (e, e') (Sets-Publishes s response s' set)
  ReaderTurns-Publishes r rs r' (replies s response e e' said) =
      rw (e, e') (Publishes-none ports s.service s.service refl)
