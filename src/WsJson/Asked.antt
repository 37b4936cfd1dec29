-- ===== src/WsJson/Asked.antt =====
-- A JSON session of a WebSocket selects events only on interfaces of a subscription that it has acknowledged or is
-- about to.
use mathlib.Core.List.Memᴰ
use mathlib.Core.List.{Memᴰ}
use can_bridge_daemon.Prelude.{
  ◌≡◌, refl, sym, subst, true, false, String, Option, none, some, List, [], ◌∷◌, ◌++◌, foldl, arith,
}
use can_bridge_daemon.Protocol.{FrameFilter, DaemonResponse, Serde}
use can_bridge_daemon.Frame.{FrameEvent}
use can_bridge_daemon.Service.{Ports}
use can_bridge_daemon.Subscription.{contains, insert, update_subscription_set, should_send_frame}
use can_bridge_daemon.Subscription.Selects.{should_send_frame-update}
use can_bridge_daemon.Subscription.Filters.{should_send_filtered}
use can_bridge_daemon.Writer.Reader.{Asked, AllAsked, Asked-append, AllAsked-append}
use can_bridge_daemon.WsJson.{set_ifaces, set_filters}
use can_bridge_daemon.WsJson.Race.{
  ReaderAt, loop, between, session_of, Shared, looked_up, WsReads, subscribes, unsubscribes,
  completes, forwards, WsTurn, moves, looks, lets_go,
}

-- The messages that the session has handed over or is about to.
abbrev pub promised : {W : Type 0} → ReaderAt W → List DaemonResponse
promised (loop s) = s.sent
promised (between filters response s) = s.sent ++ (response ∷ [])

-- Every interface in the set is of one of those.
abbrev pub IsAsked : {W : Type 0} → ReaderAt W → Type 0
IsAsked r = AllAsked DaemonResponse.subscribed (session_of r).subscribed (promised r)

should_send_frame-filtered :
    (set : List String) (filters : List FrameFilter) (ev : FrameEvent)
    → should_send_filtered set filters ev ≡ true
    → should_send_frame set ev ≡ true
unfolding should_send_filtered should_send_frame
should_send_frame-filtered set filters ev h = ground arith

cleared_selects_none : (ev : FrameEvent) → should_send_frame (foldl insert [] []) ev ≡ false
unfolding should_send_frame contains
cleared_selects_none ev = refl

module _ {W : Type 0} (ports : Ports W) (serde : Serde) where
  WsReads-IsAsked :
      (r : ReaderAt W) (rs : List DaemonResponse) (r' : ReaderAt W)
      → WsReads ports serde r rs r'
      → IsAsked r
      → IsAsked r'
  unfolding set_ifaces set_filters update_subscription_set
  WsReads-IsAsked r rs r' (subscribes ifaces filters s at_loop e e' none_said) h =
      subst IsAsked (sym e') (λ ev selected. (
        ifaces,
        Memᴰ.append_right s.sent (Memᴰ.head refl),
        (should_send_frame-update s.subscribed ifaces ev).0 selected,
      ))
  WsReads-IsAsked r rs r' (unsubscribes s at_loop e e' none_said) h =
      subst IsAsked (sym e') (λ ev selected. cc (selected, cleared_selects_none ev))
  WsReads-IsAsked r rs r' (completes filters response s e e' one) h =
      subst IsAsked (sym e') (λ ev selected. subst IsAsked e h ev selected)
  WsReads-IsAsked r rs r' (forwards input s s' made e e' same same' said) h =
      subst IsAsked (sym e') (
        AllAsked-append DaemonResponse.subscribed s.subscribed s'.subscribed s.sent s'.sent rs same
          said (subst IsAsked e h))

  -- A turn keeps what was asked for.
  WsReads-Asked :
      (r : ReaderAt W) (rs : List DaemonResponse) (r' : ReaderAt W) (iface : String)
      → WsReads ports serde r rs r'
      → Asked DaemonResponse.subscribed iface (promised r)
      → Asked DaemonResponse.subscribed iface (promised r')
  unfolding set_ifaces set_filters
  WsReads-Asked r rs r' iface (subscribes ifaces filters s at_loop e e' none_said) h = rw e' (
      Asked-append DaemonResponse.subscribed iface s.sent _
        (subst (λ t. Asked DaemonResponse.subscribed iface (promised t)) e h))
  WsReads-Asked r rs r' iface (unsubscribes s at_loop e e' none_said) h = rw e' (
      Asked-append DaemonResponse.subscribed iface s.sent _
        (subst (λ t. Asked DaemonResponse.subscribed iface (promised t)) e h))
  WsReads-Asked r rs r' iface (completes filters response s e e' one) h =
      rw e' (subst (λ t. Asked DaemonResponse.subscribed iface (promised t)) e h)
  WsReads-Asked r rs r' iface (forwards input s s' made e e' same same' said) h =
      rw (e', said)
        (Asked-append DaemonResponse.subscribed iface s.sent rs
          (subst (λ t. Asked DaemonResponse.subscribed iface (promised t)) e h))

-- What the writer has seen under its first lock is asked for, too.
abbrev SeenAsked : {W : Type 0} → Option (List String) → ReaderAt W → Type 0
SeenAsked none r = Unit {0}
SeenAsked (some set) r = AllAsked DaemonResponse.subscribed set (promised r)

abbrev pub IsSharedAsked : {W : Type 0} → Shared W → Type 0
IsSharedAsked r = IsAsked r.reader × SeenAsked r.seen r.reader

-- Whatever the writer selects is asked for.
pub looked_up-Asked :
    {W : Type 0} (r : Shared W) (ev : FrameEvent)
    → IsSharedAsked r
    → should_send_filtered
        (looked_up r.seen (session_of r.reader).subscribed)
        (session_of r.reader).filters
        ev
      ≡ true
    → Asked DaemonResponse.subscribed ev.iface (promised r.reader)
looked_up-Asked r ev (asked, seen) h = by_seen r.seen seen h
  where
    by_seen :
        (o : Option (List String))
        → SeenAsked o r.reader
        → should_send_filtered
            (looked_up o (session_of r.reader).subscribed)
            (session_of r.reader).filters
            ev
          ≡ true
        → Asked DaemonResponse.subscribed ev.iface (promised r.reader)
    by_seen none seen h = asked ev (should_send_frame-filtered _ _ ev h)
    by_seen (some set) seen h = seen ev (should_send_frame-filtered set _ ev h)

module _ {W : Type 0} (ports : Ports W) (serde : Serde) where
  WsReads-SeenAsked :
      (o : Option (List String)) (r : ReaderAt W) (rs : List DaemonResponse) (r' : ReaderAt W)
      → WsReads ports serde r rs r'
      → SeenAsked o r
      → SeenAsked o r'
  WsReads-SeenAsked none r rs r' turn h = tt
  WsReads-SeenAsked (some set) r rs r' turn h =
      λ ev selected. WsReads-Asked ports serde r rs r' ev.iface turn (h ev selected)

  pub WsTurn-IsSharedAsked :
      (r : Shared W) (rs : List DaemonResponse) (r' : Shared W)
      → WsTurn ports serde r rs r'
      → IsSharedAsked r
      → IsSharedAsked r'
  WsTurn-IsSharedAsked r rs r' (moves turn e) (asked, seen) = subst IsSharedAsked (sym e) (
    WsReads-IsAsked ports serde r.reader rs _ turn asked,
    WsReads-SeenAsked r.seen r.reader rs _ turn seen,
  )
  WsTurn-IsSharedAsked r rs r' (looks e none_said) (asked, seen) =
      subst IsSharedAsked (sym e) (asked, asked)
  WsTurn-IsSharedAsked r rs r' (lets_go e none_said) (asked, seen) =
      subst IsSharedAsked (sym e) (asked, tt)

  pub WsTurn-Asked :
      (r : Shared W) (rs : List DaemonResponse) (r' : Shared W) (iface : String)
      → WsTurn ports serde r rs r'
      → Asked DaemonResponse.subscribed iface (promised r.reader)
      → Asked DaemonResponse.subscribed iface (promised r'.reader)
  WsTurn-Asked r rs r' iface (moves turn e) h =
      rw e (WsReads-Asked ports serde r.reader rs _ iface turn h)
  WsTurn-Asked r rs r' iface (looks e none_said) h = rw e h
  WsTurn-Asked r rs r' iface (lets_go e none_said) h = rw e h
