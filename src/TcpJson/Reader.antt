-- ===== src/TcpJson/Reader.antt =====
-- The reader of a JSON session over TCP beside its writer: a change of the subscriptions takes two turns, any other
-- step one; and what the session's set of interfaces holds.
use mathlib.Core.List.Memᴰ
use mathlib.Core.List.{Memᴰ}
use Prim.Native.String
use can_bridge_daemon.Prelude.{
  ◌≡◌, inl, inr, refl, sym, ap, ◌∙◌, subst, false, String, List, [], ◌∷◌, ◌++◌, append-nil,
  Result-cases, Bool-cases, str_eq,
}
use can_bridge_daemon.Protocol.{ClientRequest, DaemonResponse, Serde}
use can_bridge_daemon.Frame.{FrameEvent}
use can_bridge_daemon.Service.{Ports}
use can_bridge_daemon.Subscription.{
  contains, update_subscription_set, clear_subscription_set, should_send_frame,
}
use can_bridge_daemon.Subscription.Selects.{should_send_frame-update}
use can_bridge_daemon.Writer.Reader.{AllAsked, AllAsked-append}
use can_bridge_daemon.TcpJson.{
  parse_hello, io, hello_timeout, JsonPhase, JsonSession, Input, send, dispatch, greet, handshake,
  handle_raw, handle_line, trim, step_by, step,
}

-- Every interface in the set was asked for.
abbrev pub IsAsked : {W : Type 0} → JsonSession W → Type 0
IsAsked s = AllAsked DaemonResponse.subscribed s.subscribed s.sent

-- A change of the subscriptions in the main loop, before its answer.
pub data Sets {W : Type 0} (s : JsonSession W) (response : DaemonResponse) (s' : JsonSession W)
    : Type 0 where
  subscribes :
      (ifaces : List String)
      → response ≡ DaemonResponse.subscribed ifaces
      → s' ≡ record s { subscribed = update_subscription_set s.subscribed ifaces }
      → Sets s response s'
  unsubscribes :
      response ≡ DaemonResponse.unsubscribed
      → s' ≡ record s { subscribed = clear_subscription_set s.subscribed }
      → Sets s response s'

pub Sets-sent :
    {W : Type 0} (s : JsonSession W) (response : DaemonResponse) (s' : JsonSession W)
    → Sets s response s'
    → s'.sent ≡ s.sent
Sets-sent s response s' (subscribes ifaces r e) = ap (λ t. t.sent) e
Sets-sent s response s' (unsubscribes r e) = ap (λ t. t.sent) e

cleared_selects_none :
    (set : List String) (ev : FrameEvent)
    → should_send_frame (clear_subscription_set set) ev ≡ false
unfolding should_send_frame contains clear_subscription_set
cleared_selects_none set ev = refl

pub Sets-AllAsked :
    {W : Type 0} (s : JsonSession W) (response : DaemonResponse) (s' : JsonSession W)
    → Sets s response s'
    → AllAsked DaemonResponse.subscribed s'.subscribed (s'.sent ++ (response ∷ []))
Sets-AllAsked s response s' (subscribes ifaces r e) ev selected = (
  ifaces,
  Memᴰ.append_right s'.sent (Memᴰ.head (sym r)),
  (should_send_frame-update s.subscribed ifaces ev).0
      (ap (λ t. should_send_frame t.subscribed ev) (sym e) ∙ selected),
)
Sets-AllAsked s response s' (unsubscribes r e) ev selected =
    cc (
      ap (λ t. should_send_frame t.subscribed ev) e,
      selected,
      cleared_selects_none s.subscribed ev,
    )

module _ {W : Type 0} (ports : Ports W) where
  -- The change and the answer, and nothing between them, are the dispatch of the request.
  pub Sets-dispatch :
      (s : JsonSession W) (response : DaemonResponse) (s' : JsonSession W)
      → Sets s response s'
      → (req : ClientRequest) × (send response s' ≡ dispatch ports req s)
  unfolding dispatch
  Sets-dispatch s response s' (subscribes ifaces r e) =
      (ClientRequest.subscribe ifaces [], rw (r, e) refl)
  Sets-dispatch s response s' (unsubscribes r e) = (ClientRequest.unsubscribe, rw (r, e) refl)

  -- What a step of the session adds to the messages, and that it keeps what was asked for.
  abbrev Says : JsonSession W → JsonSession W → Type 0
  Says s t = ((rs : List DaemonResponse) × (t.sent ≡ s.sent ++ rs)) × (IsAsked s → IsAsked t)

  more_sent :
      (s t : JsonSession W) (rs : List DaemonResponse)
      → t.subscribed ≡ s.subscribed
      → t.sent ≡ s.sent ++ rs
      → Says s t
  more_sent s t rs same said = (
    (rs, said),
    AllAsked-append DaemonResponse.subscribed s.subscribed t.subscribed s.sent t.sent rs same said,
  )

  none_sent : (s t : JsonSession W) → t.subscribed ≡ s.subscribed → t.sent ≡ s.sent → Says s t
  none_sent s t same said = more_sent s t [] same (said ∙ sym (append-nil s.sent))

  dispatch-Says : (req : ClientRequest) (s : JsonSession W) → Says s (dispatch ports req s)
  unfolding dispatch
  dispatch-Says (ClientRequest.subscribe ifaces filters) s = (
    (_, refl),
    λ h. Sets-AllAsked s (DaemonResponse.subscribed ifaces) _ (subscribes ifaces refl refl),
  )
  dispatch-Says ClientRequest.unsubscribe s =
      ((_, refl), λ h ev selected. cc (selected, cleared_selects_none s.subscribed ev))
  dispatch-Says (ClientRequest.client_hello client protocol) s =
      more_sent s (dispatch ports (ClientRequest.client_hello client protocol) s) _ refl refl
  dispatch-Says (ClientRequest.ping id) s =
      more_sent s (dispatch ports (ClientRequest.ping id) s) _ refl refl
  dispatch-Says ClientRequest.list_ifaces s =
      more_sent s (dispatch ports ClientRequest.list_ifaces s) _ refl refl
  dispatch-Says (ClientRequest.send_frame iface id is_fd brs esi data_hex) s =
      more_sent s (dispatch ports (ClientRequest.send_frame iface id is_fd brs esi data_hex) s) _
        refl refl

module _ {W : Type 0} (ports : Ports W) (serde : Serde) where
  raw-Says : (raw : String) (s : JsonSession W) → Says ports s (handle_raw ports serde raw s)
  unfolding handle_raw
  raw-Says raw s = elim (Result-cases (serde.from_str raw)) [
    | inl (req, e) ↦ rw (e, handle_raw) (dispatch-Says ports req s)
    | inr (x, e) ↦
        rw (e, handle_raw)
          (more_sent ports s (send (DaemonResponse.error (String.◌++◌ "invalid json: " x)) s) _ refl
            refl)
  ]

  line-Says : (text : String) (s : JsonSession W) → Says ports s (handle_line ports serde text s)
  unfolding handle_line
  line-Says text s = elim (Bool-cases (str_eq (trim text) "")) [
    | inl e ↦ rw (e, handle_line) (none_sent ports s s refl refl)
    | inr e ↦ rw (e, handle_line) (raw-Says (trim text) s)
  ]

  greet-Says : (req : ClientRequest) (s : JsonSession W) → Says ports s (greet ports serde req s)
  unfolding greet
  greet-Says (ClientRequest.client_hello client protocol) s =
      none_sent ports s (record s { phase = JsonPhase.ready }) refl refl
  greet-Says (ClientRequest.ping id) s =
      more_sent ports s (greet ports serde (ClientRequest.ping id) s) _ refl refl
  greet-Says ClientRequest.list_ifaces s =
      more_sent ports s (greet ports serde ClientRequest.list_ifaces s) _ refl refl
  greet-Says (ClientRequest.subscribe ifaces filters) s =
      more_sent ports s (greet ports serde (ClientRequest.subscribe ifaces filters) s) _ refl refl
  greet-Says ClientRequest.unsubscribe s =
      more_sent ports s (greet ports serde ClientRequest.unsubscribe s) _ refl refl
  greet-Says (ClientRequest.send_frame iface id is_fd brs esi data_hex) s =
      more_sent ports s
        (greet ports serde (ClientRequest.send_frame iface id is_fd brs esi data_hex) s) _ refl refl

  handshake-Says : (text : String) (s : JsonSession W) → Says ports s (handshake ports serde text s)
  unfolding handshake
  handshake-Says text s = elim (Result-cases (serde.from_str text)) [
    | inl (req, e) ↦ rw (e, handshake) (greet-Says req s)
    | inr (x, e) ↦
        rw (e, handshake)
          (none_sent ports s (record s { phase = JsonPhase.failed (parse_hello x) }) refl refl)
  ]

  step_by-Says :
      (p : JsonPhase) (s : JsonSession W) (input : Input)
      → Says ports s (step_by ports serde p s input)
  step_by-Says JsonPhase.handshaking s (Input.line text) = handshake-Says text s
  step_by-Says JsonPhase.handshaking s Input.end_of_stream =
      none_sent ports s (record s { phase = JsonPhase.ended }) refl refl
  step_by-Says JsonPhase.handshaking s Input.read_error =
      none_sent ports s (record s { phase = JsonPhase.failed io }) refl refl
  step_by-Says JsonPhase.handshaking s Input.timeout =
      none_sent ports s (record s { phase = JsonPhase.failed hello_timeout }) refl refl
  step_by-Says JsonPhase.ready s (Input.line text) = line-Says text s
  step_by-Says JsonPhase.ready s Input.end_of_stream =
      none_sent ports s (record s { phase = JsonPhase.ended }) refl refl
  step_by-Says JsonPhase.ready s Input.read_error =
      none_sent ports s (record s { phase = JsonPhase.failed io }) refl refl
  step_by-Says JsonPhase.ready s Input.timeout = none_sent ports s (s) refl refl
  step_by-Says JsonPhase.ended s input = none_sent ports s (s) refl refl
  step_by-Says (JsonPhase.failed x) s input = none_sent ports s (s) refl refl

  step-Says : (s : JsonSession W) (input : Input) → Says ports s (step ports serde s input)
  unfolding step
  step-Says s input = step_by-Says s.phase s input

  -- A step on a line, or on the end of the lines, with the messages that it hands over.
  pub data Reads (s : JsonSession W) (rs : List DaemonResponse) (s' : JsonSession W) : Type 0 where
    steps : (input : Input) → s' ≡ step ports serde s input → s'.sent ≡ s.sent ++ rs → Reads s rs s'

  pub Reads-sent :
      (s : JsonSession W) (rs : List DaemonResponse) (s' : JsonSession W)
      → Reads s rs s'
      → s'.sent ≡ s.sent ++ rs
  Reads-sent s rs s' (steps input e said) = said

  pub Reads-IsAsked :
      (s : JsonSession W) (rs : List DaemonResponse) (s' : JsonSession W)
      → Reads s rs s'
      → IsAsked s
      → IsAsked s'
  Reads-IsAsked s rs s' (steps input e said) h = subst IsAsked (sym e) ((step-Says s input).1 h)

  -- Every step is one of those turns.
  pub step-Reads :
      (s : JsonSession W) (input : Input)
      → (rs : List DaemonResponse) × Reads s rs (step ports serde s input)
  step-Reads s input = let ((rs, said), keeps) = step-Says s input in (rs, steps input refl said)
