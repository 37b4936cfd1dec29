-- ===== src/Daemon/Valid.antt =====
-- What is so of the daemon in every state that it reaches.
use can_bridge_daemon.Prelude.{
  ◌≡◌, sym, ap, ◌∙◌, subst, List, [], ◌∷◌, ◌++◌, append-nil, map, All, All-append,
}
use can_bridge_daemon.Frame.{FrameEvent}
use can_bridge_daemon.Service.{Ports, new}
use can_bridge_daemon.SocketCan.{IdApi}
use can_bridge_daemon.SocketCan.Rx.{RxApi}
use can_bridge_daemon.Startup.{Started}
use can_bridge_daemon.Writer
use can_bridge_daemon.Writer.{
  Connection, Choice, running, ended, opened, writer_step, reads, publishes, writes,
}
use can_bridge_daemon.Daemon.{
  Kind, Client, Daemon, hear, publish, boot, Step, opens, closes, turns, calls, reads_fd,
  reads_classic, emits, Reach, here, next,
}
use can_bridge_daemon.Daemon.Hears.{Hears, hear-Hears, writer_step-published}

All-split : {A : Type 0} (P : A → Type 0) (xs ys : List A) → All P (xs ++ ys) → All P xs × All P ys
All-split P [] ys h = (tt, h)
All-split P (x ∷ xs) ys (p, h) = let (a, b) = All-split P xs ys h in ((p, a), b)

module _ {W K : Type 0} (ports : Ports W) {ids : IdApi} (api : RxApi ids) (started : Started)
    (kinds : K → Kind W) where
  abbrev pub ClientHears : List FrameEvent → Client kinds → Type 0
  ClientHears bus client = Hears (kinds client.kind) bus client.connection

  -- Each connection hears the bus.
  pub record IsValid (d : Daemon kinds) : Type 0 where
    pub heard : All (ClientHears d.bus) d.clients

  All-hear :
      (bus evs : List FrameEvent) (clients : List (Client kinds))
      → All (ClientHears bus) clients
      → All (ClientHears (bus ++ evs)) (map (hear kinds evs) clients)
  All-hear bus evs [] h = tt
  All-hear bus evs (client ∷ clients) (p, h) =
      (hear-Hears (kinds client.kind) bus evs client.connection p, All-hear bus evs clients h)

  publish-IsValid :
      (evs : List FrameEvent) (d : Daemon kinds) → IsValid d → IsValid (publish kinds evs d)
  unfolding publish
  publish-IsValid evs d v = record { heard = All-hear d.bus evs d.clients v.heard }

  -- One client in its place, and another there.
  pub at_place :
      (bus : List FrameEvent) (before after clients : List (Client kinds)) (client : Client kinds)
      → clients ≡ before ++ (client ∷ after)
      → All (ClientHears bus) clients
      → All (ClientHears bus) before × ClientHears bus client × All (ClientHears bus) after
  at_place bus before after clients client e h =
      let (front, (p, back)) =
        All-split (ClientHears bus) before (client ∷ after) (subst (All (ClientHears bus)) e h) in
      (front, p, back)

  in_place :
      (d : Daemon kinds) (before after : List (Client kinds)) (client client' : Client kinds)
      → d.clients ≡ before ++ (client ∷ after)
      → (ClientHears d.bus client → ClientHears d.bus client')
      → IsValid d
      → IsValid (record d { clients = before ++ (client' ∷ after) })
  in_place d before after client client' e f v =
      let (front, p, back) = at_place d.bus before after d.clients client e v.heard in
      record { heard = All-append (ClientHears d.bus) before (client' ∷ after) front (f p, back) }

  Step-IsValid : {d d' : Daemon kinds} → Step ports api started kinds d d' → IsValid d → IsValid d'
  Step-IsValid {d} (opens k w) v = record {
    heard =
        All-append (ClientHears d.bus) d.clients _ v.heard
          ((d.bus, new w, sym (append-nil d.bus), Writer.here), tt);
  }
  Step-IsValid {d} (closes before after client e) v =
      let (front, p, back) = at_place d.bus before after d.clients client e v.heard in
      record { heard = All-append (ClientHears d.bus) before after front back }
  Step-IsValid {d} (turns before after k c rs r w e turn) v =
      publish-IsValid ((kinds k).service r).frames _ (
        in_place d before after (record { kind = k; connection = c })
          (record { kind = k; connection = record c { reader = r; outgoing = c.outgoing ++ rs } }) e
          (λ (b4, b, same, h). (b4, b, same, Writer.next h (reads {s = r} {rs = rs} (w, turn)))) v)
  Step-IsValid {d} (Step.writes before after k c success choice e) v =
      in_place d before after (record { kind = k; connection = c })
        (record { kind = k; connection = writer_step (kinds k).transport success choice c }) e
        (λ (b4, b, same, h). (
          b4,
          b,
          same
              ∙ ap (λ l. b4 ++ l)
                  (sym (writer_step-published (kinds k).transport success choice c)),
          Writer.next h (writes success choice),
        ))
        v
  Step-IsValid {d} (calls req w) v = publish-IsValid _ d v
  Step-IsValid {d} (reads_fd iface read w m) v = publish-IsValid _ d v
  Step-IsValid {d} (reads_classic iface read w m) v = publish-IsValid _ d v
  Step-IsValid {d} (emits ifaces counter idx iface w g m) v = publish-IsValid _ d v

  pub Reach-IsValid : {d : Daemon kinds} → Reach ports api started kinds (boot kinds) d → IsValid d
  Reach-IsValid here = record { heard = tt }
  Reach-IsValid (next r st) = Step-IsValid st (Reach-IsValid r)
