-- ===== src/BinarySession/Reader.antt =====
-- The reader of a binary session beside its writer: a request that changes the subscriptions takes two turns, any
-- other one; and what the session's set of interfaces holds.
use mathlib.Core.List.Memᴰ
use mathlib.Core.List.{Memᴰ}
use can_bridge_daemon.Prelude.{
  ℕ, some, ◌≡◌, refl, sym, ap, ◌∙◌, subst, false, String, List, [], ◌∷◌, ◌++◌, append-nil, drop, ok,
}
use can_bridge_daemon.BinaryMessage.Types.{ClientBinaryRequest, DaemonBinaryResponse}
use can_bridge_daemon.BinaryMessage.Packet.{decode_client_from}
use can_bridge_daemon.Frame.{FrameEvent}
use can_bridge_daemon.Service.{Ports}
use can_bridge_daemon.Subscription.{
  contains, update_subscription_set, clear_subscription_set, should_send_frame,
}
use can_bridge_daemon.Subscription.Selects.{should_send_frame-update}
use can_bridge_daemon.BinarySession.{Texts, Session, send, dispatch}
use can_bridge_daemon.BinarySession.Drain.{taken}
use can_bridge_daemon.BinarySession.Turns.{Reads, receives, requests, greets, says, moves}
use can_bridge_daemon.Writer.Reader.{Reader, Splits, AllAsked, AllAsked-append}

clear_selects_none :
    (set : List String) (ev : FrameEvent)
    → should_send_frame (clear_subscription_set set) ev ≡ false
unfolding should_send_frame contains clear_subscription_set
clear_selects_none set ev = refl

module _ {W : Type 0} where
  -- Every interface in the set was asked for.
  abbrev pub IsAsked : Session W → Type 0
  IsAsked s = AllAsked DaemonBinaryResponse.subscribed s.subscribed s.sent

  IsAsked-append :
      (s t : Session W) (rs : List DaemonBinaryResponse)
      → t.subscribed ≡ s.subscribed
      → t.sent ≡ s.sent ++ rs
      → IsAsked s
      → IsAsked t
  IsAsked-append s t rs =
      AllAsked-append DaemonBinaryResponse.subscribed s.subscribed t.subscribed s.sent t.sent rs

-- A request that changes the subscriptions is taken off the buffer, and they are changed; the answer is still to
-- be given.
pub data Sets {W : Type 0} (s : Session W) (response : DaemonBinaryResponse) (s' : Session W)
    : Type 0 where
  subscribes :
      (ifaces : List String) (n : ℕ)
      → decode_client_from s.receive_buffer ≡ ok (some (ClientBinaryRequest.subscribe ifaces, n))
      → response ≡ DaemonBinaryResponse.subscribed ifaces
      → s' ≡ record s {
        receive_buffer = drop n s.receive_buffer;
        subscribed = update_subscription_set s.subscribed ifaces;
      }
      → Sets s response s'
  unsubscribes :
      (n : ℕ)
      → decode_client_from s.receive_buffer ≡ ok (some (ClientBinaryRequest.unsubscribe, n))
      → response ≡ DaemonBinaryResponse.unsubscribed
      → s' ≡ record s {
        receive_buffer = drop n s.receive_buffer;
        subscribed = clear_subscription_set s.subscribed;
      }
      → Sets s response s'

pub Sets-sent :
    {W : Type 0} (s : Session W) (response : DaemonBinaryResponse) (s' : Session W)
    → Sets s response s'
    → s'.sent ≡ s.sent
Sets-sent s response s' (subscribes ifaces n d r e) = ap (λ t. t.sent) e
Sets-sent s response s' (unsubscribes n d r e) = ap (λ t. t.sent) e

pub Sets-AllAsked :
    {W : Type 0} (s : Session W) (response : DaemonBinaryResponse) (s' : Session W)
    → Sets s response s'
    → AllAsked DaemonBinaryResponse.subscribed s'.subscribed (s'.sent ++ (response ∷ []))
Sets-AllAsked s response s' (subscribes ifaces n d r e) ev selected = (
  ifaces,
  Memᴰ.append_right s'.sent (Memᴰ.head (sym r)),
  (should_send_frame-update s.subscribed ifaces ev).0
      (ap (λ t. should_send_frame t.subscribed ev) (sym e) ∙ selected),
)
Sets-AllAsked s response s' (unsubscribes n d r e) ev selected =
    cc (ap (λ t. should_send_frame t.subscribed ev) e, selected, clear_selects_none s.subscribed ev)

module _ {W : Type 0} (ports : Ports W) (texts : Texts) where
  -- The change and the answer, and nothing between them, are the turn of the request.
  pub Sets-taken :
      (s : Session W) (response : DaemonBinaryResponse) (s' : Session W)
      → Sets s response s'
      → (req : ClientBinaryRequest) × (n : ℕ) × (decode_client_from s.receive_buffer
          ≡ ok (some (req, n)))
        × (send response s' ≡ taken ports texts req n s)
  unfolding dispatch
  Sets-taken s response s' (subscribes ifaces n d r e) =
      (ClientBinaryRequest.subscribe ifaces, n, d, rw (r, e) refl)
  Sets-taken s response s' (unsubscribes n d r e) =
      (ClientBinaryRequest.unsubscribe, n, d, rw (r, e) refl)

  -- The reader's turns, of which those that change the subscriptions are two.
  abbrev pub ReaderTurns :
      Reader (Session W) DaemonBinaryResponse
      → List DaemonBinaryResponse
      → Reader (Session W) DaemonBinaryResponse
      → Type 0
  ReaderTurns = Splits (Reads ports texts) Sets send

  dispatch-IsAsked :
      (req : ClientBinaryRequest) (s : Session W) → IsAsked s → IsAsked (dispatch ports texts req s)
  unfolding dispatch
  dispatch-IsAsked (ClientBinaryRequest.subscribe ifaces) s h ev selected = (
    ifaces,
    Memᴰ.append_right s.sent (Memᴰ.head refl),
    (should_send_frame-update s.subscribed ifaces ev).0 selected,
  )
  dispatch-IsAsked ClientBinaryRequest.unsubscribe s h ev selected =
      cc (selected, clear_selects_none s.subscribed ev)
  dispatch-IsAsked (ClientBinaryRequest.ping id) s h ev selected =
      IsAsked-append s (dispatch ports texts (ClientBinaryRequest.ping id) s) _ refl refl h ev
        selected
  dispatch-IsAsked ClientBinaryRequest.list_ifaces s h ev selected =
      IsAsked-append s (dispatch ports texts ClientBinaryRequest.list_ifaces s) _ refl refl h ev
        selected
  dispatch-IsAsked (ClientBinaryRequest.send_frame iface id is_fd brs esi bytes) s h ev selected =
      IsAsked-append s
        (dispatch ports texts (ClientBinaryRequest.send_frame iface id is_fd brs esi bytes) s) _
        refl refl h ev selected
  dispatch-IsAsked (ClientBinaryRequest.client_hello client protocol) s h ev selected =
      IsAsked-append s (dispatch ports texts (ClientBinaryRequest.client_hello client protocol) s) _
        refl refl h ev selected

  pub Reads-sent :
      (s : Session W) (rs : List DaemonBinaryResponse) (s' : Session W)
      → Reads ports texts s rs s'
      → s'.sent ≡ s.sent ++ rs
  Reads-sent s rs s' (receives bytes e none_said) =
      ap (λ (t : Session W). t.sent) e
      ∙ sym (append-nil s.sent)
      ∙ ap (λ l. s.sent ++ l) (sym none_said)
  Reads-sent s rs s' (requests req n d e said) = said
  Reads-sent s rs s' (greets req n p d e) = ap (λ (t : Session W). t.sent) e
  Reads-sent s rs s' (says e) = ap (λ (t : Session W). t.sent) e
  Reads-sent s rs s' (moves p e none_said) =
      ap (λ (t : Session W). t.sent) e
      ∙ sym (append-nil s.sent)
      ∙ ap (λ l. s.sent ++ l) (sym none_said)

  pub Reads-IsAsked :
      (s : Session W) (rs : List DaemonBinaryResponse) (s' : Session W)
      → Reads ports texts s rs s'
      → IsAsked s
      → IsAsked s'
  Reads-IsAsked s rs s' (receives bytes e none_said) h =
      IsAsked-append s s' rs (ap (λ (t : Session W). t.subscribed) e)
        (Reads-sent s rs s' (receives bytes e none_said)) h
  Reads-IsAsked s rs s' (requests req n d e said) h =
      subst IsAsked (sym e)
        (dispatch-IsAsked req (record s { receive_buffer = drop n s.receive_buffer }) h)
  Reads-IsAsked s rs s' (greets req n p d e) h =
      IsAsked-append s s' rs (ap (λ (t : Session W). t.subscribed) e)
        (ap (λ (t : Session W). t.sent) e) h
  Reads-IsAsked s rs s' (says e) h =
      IsAsked-append s s' rs (ap (λ (t : Session W). t.subscribed) e)
        (ap (λ (t : Session W). t.sent) e) h
  Reads-IsAsked s rs s' (moves p e none_said) h =
      IsAsked-append s s' rs (ap (λ (t : Session W). t.subscribed) e)
        (Reads-sent s rs s' (moves p e none_said)) h
