-- ===== src/Daemon/Shown.antt =====
-- What a client of the daemon is shown, whatever the others do.
use mathlib.Core.List.Sublistᴰ
use mathlib.Core.List.{Sublistᴰ}
use can_bridge_daemon.Prelude.{
  length, ◌≤◌, ◌≡◌, refl, sym, ap, ◌∙◌, subst, List, [], ◌∷◌, ◌++◌, All,
}
use can_bridge_daemon.Frame.{FrameEvent}
use can_bridge_daemon.Service.{Ports, new}
use can_bridge_daemon.SocketCan.{IdApi}
use can_bridge_daemon.SocketCan.Rx.{RxApi}
use can_bridge_daemon.Startup.{Started}
use can_bridge_daemon.Writer.{Connection, running, ended}
use can_bridge_daemon.Writer.Order.{InOrder, Reach-InOrder, answers, events}
use can_bridge_daemon.Writer.Grants.{Reach-AllGranted}
use can_bridge_daemon.Daemon.{Kind, KindLaws, Client, Daemon, boot, Reach}
use can_bridge_daemon.Daemon.Genuine.{PutIn, Reach-PutIn}
use can_bridge_daemon.Daemon.Hears.{Given, Hears}
use can_bridge_daemon.Daemon.Valid.{ClientHears, at_place, Reach-IsValid}
use can_bridge_daemon.Writer.Finish.{Take, messages, finish, finish-answers}

All-Sublistᴰ : {A : Type 0} (P : A → Type 0) {xs ys : List A} → Sublistᴰ xs ys → All P ys → All P xs
All-Sublistᴰ P Sublistᴰ.slnil h = tt
All-Sublistᴰ P (Sublistᴰ.cons s) (p, h) = All-Sublistᴰ P s h
All-Sublistᴰ P (Sublistᴰ.cons-cons e s) (p, h) = (subst P (sym e) p, All-Sublistᴰ P s h)

nil-Sublistᴰ : {A : Type 0} (ys : List A) → Sublistᴰ [] ys
nil-Sublistᴰ [] = Sublistᴰ.slnil
nil-Sublistᴰ (y ∷ ys) = Sublistᴰ.cons (nil-Sublistᴰ ys)

append-Sublistᴰ : {A : Type 0} (xs ys : List A) → Sublistᴰ xs (xs ++ ys)
append-Sublistᴰ [] ys = nil-Sublistᴰ ys
append-Sublistᴰ (x ∷ xs) ys = Sublistᴰ.cons-cons refl (append-Sublistᴰ xs ys)

Sublistᴰ-behind : {A : Type 0} (xs ys : List A) → Sublistᴰ ys (xs ++ ys)
Sublistᴰ-behind [] ys = Sublistᴰ.refl ys
Sublistᴰ-behind (x ∷ xs) ys = Sublistᴰ.cons (Sublistᴰ-behind xs ys)

module _ {W K : Type 0} (ports : Ports W) {ids : IdApi} (api : RxApi ids) (started : Started)
    (kinds : K → Kind W) where
  module _ (Granted : (k : K) → (kinds k).State → FrameEvent → Type 0)
      (Origin : FrameEvent → Type 0) where
    -- What a client is shown: its answers are a beginning of those of its own session; the events are events of the
    -- bus in its order, each once at most; each has such an origin; and each was asked for.
    abbrev pub Shown : List FrameEvent → Client kinds → Type 0
    Shown bus client =
        ((rest : List (kinds client.kind).Response) × ((kinds client.kind).sent
              client.connection.reader
            ≡ answers client.connection.written ++ rest))
        × Sublistᴰ (events client.connection.written) bus
        × All Origin (events client.connection.written)
        × All (Granted client.kind client.connection.reader) (events client.connection.written)

  module _ (Granted : (k : K) → (kinds k).State → FrameEvent → Type 0)
      (laws : (k : K) → KindLaws ports (kinds k) (Granted k)) where
    pub Hears-InOrder :
        (k : K) (bus : List FrameEvent) (c : Connection (kinds k).State (kinds k).Response)
        → Hears (kinds k) bus c
        → InOrder (kinds k).transport (Given (kinds k)) (kinds k).sent c
    Hears-InOrder k bus c (before, b, e, h) =
        let law = laws k in
        let kind = kinds k in
        Reach-InOrder kind.transport (Given kind) kind.sent law.serializes
          (λ r rs r' (w, turn).
            law.appends (kind.with_service (new w) r) rs r' turn
            ∙ ap (λ l. l ++ rs) (law.sent_given (new w) r))
          (kind.start b) h

    Hears-Shown :
        (Origin : FrameEvent → Type 0) (bus : List FrameEvent) (client : Client kinds)
        → All Origin bus
        → ClientHears ports api started kinds bus client
        → Shown Granted Origin bus client
    Hears-Shown Origin bus client genuine (before, b, e, h) =
        let law = laws client.kind in
        let kind = kinds client.kind in
        let c = client.connection in
        let order : InOrder kind.transport (Given kind) kind.sent c =
          Hears-InOrder client.kind bus c (before, b, e, h) in
        let shown : Sublistᴰ (events c.written) bus = subst (Sublistᴰ (events c.written)) (sym e) (
          Sublistᴰ.trans (append-Sublistᴰ (events c.written) c.backlog)
            (Sublistᴰ.trans order.in_bus (Sublistᴰ-behind before c.published))) in
        (
          order.begins,
          shown,
          All-Sublistᴰ Origin shown genuine,
          (Reach-AllGranted kind.transport (Given kind) law.Good (Granted client.kind) law.grants
              (λ r rs r' (w, turn) good.
                law.keeps (kind.with_service (new w) r) rs r' turn (law.Good_given (new w) r good))
              (λ r rs r' ev (w, turn) granted.
                law.stays (kind.with_service (new w) r) rs r' ev turn
                  (law.Granted_given (new w) r ev granted))
              (kind.start b) (kind.sent (kind.start b)) (law.Good_start b) h).1,
        )

    All-Shown :
        (Origin : FrameEvent → Type 0) (bus : List FrameEvent) (clients : List (Client kinds))
        → All Origin bus
        → All (ClientHears ports api started kinds bus) clients
        → All (Shown Granted Origin bus) clients
    All-Shown Origin bus [] genuine h = tt
    All-Shown Origin bus (client ∷ clients) genuine (p, h) =
        (Hears-Shown Origin bus client genuine p, All-Shown Origin bus clients genuine h)

    -- In every state that the daemon reaches, whatever its parts do and in whatever order, every client is shown so.
    pub Reach-Shown :
        {d : Daemon kinds} (r : Reach ports api started kinds (boot kinds) d)
        → All (Shown Granted (PutIn ports api started kinds r) d.bus) d.clients
    Reach-Shown {d} r =
        All-Shown (PutIn ports api started kinds r) d.bus d.clients
          (Reach-PutIn ports api started kinds Granted laws r)
          (Reach-IsValid ports api started kinds r).heard

    -- The writer of a client, at the end of its session.
    pub Reach-finish :
        {d : Daemon kinds} (before after : List (Client kinds)) (client : Client kinds)
        (takes : List Take)
        → Reach ports api started kinds (boot kinds) d
        → d.clients ≡ before ++ (client ∷ after)
        → client.connection.writer ≡ running
        → length client.connection.outgoing ≤ messages takes
        → ((finish (kinds client.kind).transport takes client.connection).writer ≡ ended)
          × (answers (finish (kinds client.kind).transport takes client.connection).written
              ≡ (kinds client.kind).sent client.connection.reader)
    Reach-finish {d} before after client takes r e w enough =
        let (front, h, back) =
          at_place ports api started kinds d.bus before after d.clients client e
            (Reach-IsValid ports api started kinds r).heard in
        let order = Hears-InOrder client.kind d.bus client.connection h in
        let (over, all, empty) =
          finish-answers (kinds client.kind).transport (laws client.kind).serializes
            (kinds client.kind).sent takes client.connection w
            (order.queued (λ broken. cc (w, broken))) enough in
        (over, all)
