-- ===== src/Grpc/Calls.antt =====
-- What the gRPC methods answer, and what a subscription streams.
use mathlib.Core.List.{Mem}
use Prim.Native.String
use can_bridge_daemon.Prelude.{
  ℕ, ◌≡◌, ◌↔◌, ◌⊎◌, inl, inr, refl, sym, subst, true, false, String, Option, none, some, List, [],
  ◌∷◌, ◌++◌, All, foldl, Result, ok, err, Result-cases, Bool-cases,
}
use can_bridge_daemon.Text.Utf8.{IsByte}
use can_bridge_daemon.Protocol.{DaemonResponse}
use can_bridge_daemon.Frame.{FrameEvent}
use can_bridge_daemon.Hex.{hex_to_bytes, display_hex_error}
use can_bridge_daemon.Hex.RoundTrip.{hex_to_bytes-bytes_to_hex_lower}
use can_bridge_daemon.Service
use can_bridge_daemon.Service.{TxFrame, Ports, BridgeService, handle, after_send}
use can_bridge_daemon.Service.Handle.{sent_event}
use can_bridge_daemon.Subscription.{contains, insert, update_subscription_set, should_send_frame}
use can_bridge_daemon.Subscription.Selects.{should_send_frame-update}
use can_bridge_daemon.Grpc.{
  PbSendFrameReq, PbSendAck, PbFrameEvent, domain_frame_to_pb, send_frame, send_frame_reply,
  filter_items, subscribe,
}

-- The events that arrive, in order, without the lagged items.
abbrev pub arrived : List (Option FrameEvent) → List FrameEvent
arrived [] = []
arrived (none ∷ items) = arrived items
arrived (some ev ∷ items) = ev ∷ arrived items

-- A sublist of events, and the frames made of it: those on one of the interfaces, and no others.
pub data Selection (ifaces : List String) : List FrameEvent → List PbFrameEvent → Type 0 where
  done : Selection ifaces [] []
  take_one :
      {ev : FrameEvent} {evs : List FrameEvent} {out : List PbFrameEvent}
      → Mem ev.iface ifaces
      → Selection ifaces evs out
      → Selection ifaces (ev ∷ evs) (domain_frame_to_pb ev ∷ out)
  leave_out :
      {ev : FrameEvent} {evs : List FrameEvent} {out : List PbFrameEvent}
      → ¬ Mem ev.iface ifaces
      → Selection ifaces evs out
      → Selection ifaces (ev ∷ evs) out

contains-set :
    (ifaces : List String) (ev : FrameEvent)
    → (contains (foldl insert [] ifaces) ev.iface ≡ true) ↔ Mem ev.iface ifaces
contains-set ifaces ev =
    unfold should_send_frame update_subscription_set in should_send_frame-update [] ifaces ev

filter-take :
    (set : List String) (ev : FrameEvent) (items : List (Option FrameEvent))
    → contains set ev.iface ≡ true
    → filter_items set (some ev ∷ items) ≡ domain_frame_to_pb ev ∷ filter_items set items
unfolding filter_items
filter-take set ev items e = rw e refl

filter-leave :
    (set : List String) (ev : FrameEvent) (items : List (Option FrameEvent))
    → contains set ev.iface ≡ false
    → filter_items set (some ev ∷ items) ≡ filter_items set items
unfolding filter_items
filter-leave set ev items e = rw e refl

filter-lagged :
    (set : List String) (items : List (Option FrameEvent))
    → filter_items set (none ∷ items) ≡ filter_items set items
unfolding filter_items
filter-lagged set items = refl

filter_items-Selection :
    (ifaces : List String) (items : List (Option FrameEvent))
    → Selection ifaces (arrived items) (filter_items (foldl insert [] ifaces) items)
filter_items-Selection ifaces [] = unfold filter_items in done
filter_items-Selection ifaces (none ∷ items) =
    rw (filter-lagged (foldl insert [] ifaces) items) (filter_items-Selection ifaces items)
filter_items-Selection ifaces (some ev ∷ items) =
    elim (Bool-cases (contains (foldl insert [] ifaces) ev.iface)) [
      | inl e ↦
          rw (filter-take (foldl insert [] ifaces) ev items e)
            (take_one ((contains-set ifaces ev).0 e) (filter_items-Selection ifaces items))
      | inr e ↦ rw (filter-leave (foldl insert [] ifaces) ev items e) (
          leave_out (λ m. cc (e, (contains-set ifaces ev).1 m))
            (filter_items-Selection ifaces items))
    ]

-- A subscription streams the events that arrive on one of its interfaces, each once and in order, and no
-- other; what the receiver lost by lagging is left out silently.
pub subscribe-Selection :
    (ifaces : List String) (items : List (Option FrameEvent))
    → Selection ifaces (arrived items) (subscribe ifaces items)
unfolding subscribe
subscribe-Selection ifaces items = filter_items-Selection ifaces items

-- The hexadecimal text of a streamed frame is decoded as the payload of its event.
pub data_hex-domain_frame_to_pb :
    (ev : FrameEvent)
    → All IsByte ev.bytes
    → hex_to_bytes (domain_frame_to_pb ev).data_hex ≡ ok ev.bytes
unfolding domain_frame_to_pb
data_hex-domain_frame_to_pb ev h = hex_to_bytes-bytes_to_hex_lower ev.bytes h

-- The frame of a request whose text is decoded as `bytes`.
abbrev pub tx_frame : PbSendFrameReq → List ℕ → TxFrame
tx_frame r bytes = record {
  iface = r.iface;
  id = r.id;
  is_fd = r.is_fd;
  brs = r.brs;
  esi = r.esi;
  bytes = bytes;
}

module _ (debug : DaemonResponse → String) {W : Type 0} (ports : Ports W) where
  -- An answer to a request, with what it says of the bus: a positive one that exactly one event more is on
  -- it, that of the request's frame; a negative one that the bus is as it was.
  unfoldable pub Answered :
      PbSendFrameReq → BridgeService W → Result String PbSendAck × BridgeService W → Type 0
  Answered r s (answer, s') =
      ((bytes : List ℕ) × (ts : ℕ) × (hex_to_bytes r.data_hex ≡ ok bytes)
        × (answer ≡ ok (record { accepted = true; error = "" }))
        × (s'.frames ≡ s.frames ++ (sent_event (tx_frame r bytes) ts ∷ [])))
      ⊎ ((e : String) × (answer ≡ ok (record { accepted = false; error = e }))
          × (s'.frames ≡ s.frames))

  abbrev replied : DaemonResponse × BridgeService W → Result String PbSendAck × BridgeService W
  replied (resp, s) = (send_frame_reply debug resp, s)

  abbrev outcome :
      PbSendFrameReq
      → List ℕ
      → Result String (Unit {0}) × W
      → BridgeService W
      → DaemonResponse × BridgeService W
  outcome r bytes (sent, w) s = after_send ports (tx_frame r bytes) sent (record s { world = w })

  answered :
      (r : PbSendFrameReq) (bytes : List ℕ) (s : BridgeService W)
      (sent : Result String (Unit {0}) × W)
      → hex_to_bytes r.data_hex ≡ ok bytes
      → Answered r s (replied (outcome r bytes sent s))
  unfolding Answered after_send send_frame_reply
  answered r bytes s (ok x, w) e = inl (bytes, _, e, refl, refl)
  answered r bytes s (err x, w) e = inr (x, refl, refl)

  send_frame_decoded :
      (r : PbSendFrameReq) (bytes : List ℕ) (s : BridgeService W)
      → hex_to_bytes r.data_hex ≡ ok bytes
      → send_frame debug ports r s
        ≡ replied (outcome r bytes (ports.send (tx_frame r bytes) s.world) s)
  unfolding send_frame handle Service.send_frame
  send_frame_decoded r bytes s e = rw (e, handle) refl

  -- A `send_frame` call is never answered with a `Status`: its acknowledgement is positive and exactly one
  -- event, of the request's frame, is published, or it is negative and nothing is.
  pub send_frame-answer :
      (r : PbSendFrameReq) (s : BridgeService W) → Answered r s (send_frame debug ports r s)
  unfolding Answered send_frame handle send_frame_reply
  send_frame-answer r s = elim (Result-cases (hex_to_bytes r.data_hex)) [
    | inl (bytes, e) ↦
        subst (Answered r s) (sym (send_frame_decoded r bytes s e))
          (answered r bytes s (ports.send (tx_frame r bytes) s.world) e)
    | inr (x, e) ↦ inr (
      String.◌++◌ "bad data_hex: " (display_hex_error x),
      rw (e, handle) refl,
      rw (e, handle) refl,
    )
  ]
