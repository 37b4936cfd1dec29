-- ===== src/Daemon/Kinds/Split.antt =====
-- A kind of session whose reader changes its subscriptions in one turn and answers in the next, and what makes it one
-- for the daemon.
use can_bridge_daemon.Prelude.{
  ◌≡◌, refl, sym, ap, ◌∙◌, subst, true, false, String, List, [], ◌∷◌, ◌++◌,
}
use can_bridge_daemon.Frame.{FrameEvent}
use can_bridge_daemon.Service.{Ports, BridgeService}
use can_bridge_daemon.Service.Publishes.{Publishes}
use can_bridge_daemon.Subscription.{contains, should_send_frame}
use can_bridge_daemon.Writer.{Item, Transport}
use can_bridge_daemon.Writer.Reader.{
  Reader, loop, answering, state_of, on_state, promised, Splits, Asked, AllAsked, Splits-sent,
  Splits-Good, Splits-Asked,
}
use can_bridge_daemon.Daemon.{Kind, KindLaws}

-- An empty set selects nothing.
pub none_asked :
    {R : Type 0} (ack : List String → R) (set : List String) (sent : List R)
    → set ≡ []
    → AllAsked ack set sent
unfolding should_send_frame contains
none_asked ack set sent e ev h =
    let nothing : should_send_frame [] ev ≡ false = refl in
    cc (ap (λ l. should_send_frame l ev) e, nothing, h)

-- An event of an interface that the client has asked for.
abbrev pub SplitAsked :
    {S R : Type 0} → (List String → R) → (S → List R) → Reader S R → FrameEvent → Type 0
SplitAsked ack sent r ev = Asked ack ev.iface (promised sent r)

module _ {W S R : Type 0} (transport : Transport (Reader S R) R) (Reads : S → List R → S → Type 0)
    (Sets : S → R → S → Type 0) (say : R → S → S) (sent : S → List R)
    (service : S → BridgeService W) (with_service : BridgeService W → S → S)
    (start : BridgeService W → S) where
  abbrev pub split_kind : Kind W
  split_kind = record {
    State = Reader S R;
    Response = R;
    transport = transport;
    Turn = Splits Reads Sets say;
    sent = λ r. sent (state_of r);
    service = λ r. service (state_of r);
    with_service = λ b. on_state (with_service b);
    start = λ b. loop (start b);
  }

  module _ (ports : Ports W) (ack : List String → R) (subscribed : S → List String)
      (service_given : (b : BridgeService W) (s : S) → service (with_service b s) ≡ b)
      (sent_given : (b : BridgeService W) (s : S) → sent (with_service b s) ≡ sent s)
      (subscribed_given : (b : BridgeService W) (s : S)
        → subscribed (with_service b s) ≡ subscribed s) where
    given_service :
        (b : BridgeService W) (r : Reader S R)
        → service (state_of (on_state (with_service b) r)) ≡ b
    given_service b (loop s) = service_given b s
    given_service b (answering response s) = service_given b s

    given_sent :
        (b : BridgeService W) (r : Reader S R)
        → sent (state_of (on_state (with_service b) r)) ≡ sent (state_of r)
    given_sent b (loop s) = sent_given b s
    given_sent b (answering response s) = sent_given b s

    given_subscribed :
        (b : BridgeService W) (r : Reader S R)
        → subscribed (state_of (on_state (with_service b) r)) ≡ subscribed (state_of r)
    given_subscribed b (loop s) = subscribed_given b s
    given_subscribed b (answering response s) = subscribed_given b s

    given_promised :
        (b : BridgeService W) (r : Reader S R)
        → promised sent (on_state (with_service b) r) ≡ promised sent r
    given_promised b (loop s) = sent_given b s
    given_promised b (answering response s) = ap (λ l. l ++ (response ∷ [])) (sent_given b s)

    module _
        (publishes : (r : Reader S R) (rs : List R) (r' : Reader S R)
          → Splits Reads Sets say r rs r'
          → Publishes ports (service (state_of r)) (service (state_of r')))
        (serializes : (item : Item R) → transport.serializes item ≡ true)
        (Reads-sent : (s : S) (rs : List R) (s' : S) → Reads s rs s' → sent s' ≡ sent s ++ rs)
        (Sets-sent : (s : S) (r : R) (s' : S) → Sets s r s' → sent s' ≡ sent s)
        (say-sent : (r : R) (s : S) → sent (say r s) ≡ sent s ++ (r ∷ []))
        (selects : (r : Reader S R) (ev : FrameEvent)
          → transport.selects r ev ≡ should_send_frame (subscribed (state_of r)) ev)
        (Reads-AllAsked : (s : S) (rs : List R) (s' : S)
          → Reads s rs s'
          → AllAsked ack (subscribed s) (sent s)
          → AllAsked ack (subscribed s') (sent s'))
        (Sets-AllAsked : (s : S) (r : R) (s' : S)
          → Sets s r s'
          → AllAsked ack (subscribed s') (sent s' ++ (r ∷ [])))
        (say-subscribed : (r : R) (s : S) → subscribed (say r s) ≡ subscribed s)
        (starts : (b : BridgeService W) → subscribed (start b) ≡ []) where
      pub split_laws : KindLaws ports split_kind (SplitAsked ack sent)
      split_laws = record {
        publishes = publishes;
        appends = Splits-sent transport Reads Sets say sent Reads-sent Sets-sent say-sent;
        service_given = given_service;
        sent_given = given_sent;
        serializes = serializes;
        Good = λ r. AllAsked ack (subscribed (state_of r)) (promised sent r);
        grants = λ r ev good selected. good ev (sym (selects r ev) ∙ selected);
        keeps =
            Splits-Good transport Reads Sets say sent Reads-sent Sets-sent say-sent ack subscribed
              selects Reads-AllAsked Sets-AllAsked say-subscribed;
        stays = λ r rs r' ev turn.
            Splits-Asked transport Reads Sets say sent Reads-sent Sets-sent say-sent ack subscribed
              selects Reads-AllAsked Sets-AllAsked say-subscribed r rs r' ev turn;
        Good_given = λ b r good ev selected.
            subst (Asked ack ev.iface) (sym (given_promised b r))
              (good ev (ap (λ l. should_send_frame l ev) (sym (given_subscribed b r)) ∙ selected));
        Granted_given = λ b r ev asked. subst (Asked ack ev.iface) (sym (given_promised b r)) asked;
        Good_start = λ b. none_asked ack (subscribed (start b)) (sent (start b)) (starts b);
      }
