-- ===== src/Daemon.antt =====
-- The daemon as a whole: its bus of frames, the SocketCAN readers and the generator that src/main.rs starts, and the
-- connections of its clients, all of which take turns. A session that runs beside others is a `Kind`.
-- The world behind the ports is whatever it is at each turn: nothing is assumed of how it changes.
pub mod Genuine
pub mod Kinds
pub mod Hears
pub mod Valid
pub mod Shown
pub mod Delivers
use mathlib.Core.List.{Mem}
use can_bridge_daemon.Prelude.{
  ℕ, ◌≡◌, Bool, true, String, Option, some, List, [], ◌∷◌, ◌++◌, map, Result,
}
use can_bridge_daemon.Protocol.{ClientRequest}
use can_bridge_daemon.Frame.{FrameEvent}
use can_bridge_daemon.Service.{Ports, BridgeService, new, handle}
use can_bridge_daemon.Service.Publishes.{Publishes}
use can_bridge_daemon.SocketCan.{IdApi}
use can_bridge_daemon.SocketCan.Rx.{RxApi, fd_read, classic_read}
use can_bridge_daemon.FakeGenerator.{emit}
use can_bridge_daemon.Startup.{Started}
use can_bridge_daemon.Writer.{Item, Choice, Connection, Transport, opened, writer_step}

-- A kind of session: its reader's states and turns, what its writer does, and the service that it is given.
pub record Kind (W : Type 0) : Type 1 where
  pub State : Type 0
  pub Response : Type 0
  pub transport : Transport State Response
  pub Turn : State → List Response → State → Type 0
  pub sent : State → List Response
  pub service : State → BridgeService W
  pub with_service : BridgeService W → State → State
  pub start : BridgeService W → State

-- What the daemon needs of a kind: a turn publishes nothing but frames that the port took, and hands its messages
-- over in order; the writer selects only what it may, `Granted`, by what is always so, `Good`.
pub record KindLaws {W : Type 0} (ports : Ports W) (kind : Kind W)
    (Granted : kind.State → FrameEvent → Type 0) : Type 1 where
  pub publishes :
      (r : kind.State) (rs : List kind.Response) (r' : kind.State)
      → kind.Turn r rs r'
      → Publishes ports (kind.service r) (kind.service r')
  pub appends :
      (r : kind.State) (rs : List kind.Response) (r' : kind.State)
      → kind.Turn r rs r'
      → kind.sent r' ≡ kind.sent r ++ rs
  pub service_given :
      (b : BridgeService W) (r : kind.State) → kind.service (kind.with_service b r) ≡ b
  pub sent_given :
      (b : BridgeService W) (r : kind.State) → kind.sent (kind.with_service b r) ≡ kind.sent r
  pub serializes : (item : Item kind.Response) → kind.transport.serializes item ≡ true
  pub Good : kind.State → Type 0
  pub grants :
      (r : kind.State) (ev : FrameEvent)
      → Good r
      → kind.transport.selects r ev ≡ true
      → Granted r ev
  pub keeps :
      (r : kind.State) (rs : List kind.Response) (r' : kind.State)
      → kind.Turn r rs r'
      → Good r
      → Good r'
  pub stays :
      (r : kind.State) (rs : List kind.Response) (r' : kind.State) (ev : FrameEvent)
      → kind.Turn r rs r'
      → Granted r ev
      → Granted r' ev
  pub Good_given : (b : BridgeService W) (r : kind.State) → Good r → Good (kind.with_service b r)
  pub Granted_given :
      (b : BridgeService W) (r : kind.State) (ev : FrameEvent)
      → Granted r ev
      → Granted (kind.with_service b r) ev
  pub Good_start : (b : BridgeService W) → Good (kind.start b)

-- A connection of one of the kinds.
pub record Client {W : Type 0} {K : Type 0} (kinds : K → Kind W) : Type 0 where
  pub kind : K
  pub connection : Connection (kinds kind).State (kinds kind).Response

pub record Daemon {W : Type 0} {K : Type 0} (kinds : K → Kind W) : Type 0 where
  pub bus : List FrameEvent
  pub clients : List (Client kinds)

module _ {W K : Type 0} (kinds : K → Kind W) where
  -- Each receiver of the bus gets what is published.
  abbrev pub hear : List FrameEvent → Client kinds → Client kinds
  hear evs client = record client {
    connection = record client.connection {
      published = client.connection.published ++ evs;
      backlog = client.connection.backlog ++ evs;
    };
  }

  unfoldable pub publish : List FrameEvent → Daemon kinds → Daemon kinds
  publish evs d = record { bus = d.bus ++ evs; clients = map (hear evs) d.clients }

  -- Before any client.
  abbrev pub boot : Daemon kinds
  boot = record { bus = []; clients = [] }

module _ {W K : Type 0} (ports : Ports W) {ids : IdApi} (api : RxApi ids) (started : Started)
    (kinds : K → Kind W) where
  -- One turn of something: a client connects or its connection ends; a reader or a writer of a connection makes a
  -- turn; a gRPC call is handled; a SocketCAN reader, or the generator, which `start_sources` has
  -- started, gets or makes a frame. `w` is the world at that turn, and the bus of the service that is
  -- given holds nothing, so that what it holds afterwards is what the turn has published.
  pub data Step (d : Daemon kinds) : Daemon kinds → Type 0 where
    opens :
        (k : K) (w : W)
        → Step d (record d {
          clients =
              d.clients
              ++ (record {
                kind = k;
                connection =
                    opened ((kinds k).start (new w)) ((kinds k).sent ((kinds k).start (new w)));
              }
                  ∷ []);
        })
    closes :
        (before after : List (Client kinds)) (client : Client kinds)
        → d.clients ≡ before ++ (client ∷ after)
        → Step d (record d { clients = before ++ after })
    turns :
        (before after : List (Client kinds)) (k : K)
        (c : Connection (kinds k).State (kinds k).Response) (rs : List (kinds k).Response)
        (r : (kinds k).State) (w : W)
        → d.clients ≡ before ++ (record { kind = k; connection = c } ∷ after)
        → (kinds k).Turn ((kinds k).with_service (new w) c.reader) rs r
        → Step d (
            publish kinds ((kinds k).service r).frames (record d {
              clients =
                  before
                  ++ (record {
                    kind = k;
                    connection = record c { reader = r; outgoing = c.outgoing ++ rs };
                  }
                      ∷ after);
            }))
    writes :
        (before after : List (Client kinds)) (k : K)
        (c : Connection (kinds k).State (kinds k).Response) (success : Bool) (choice : Choice)
        → d.clients ≡ before ++ (record { kind = k; connection = c } ∷ after)
        → Step d (record d {
          clients =
              before
              ++ (record { kind = k; connection = writer_step (kinds k).transport success choice c }
                  ∷ after);
        })
    calls :
        (req : ClientRequest) (w : W) → Step d (publish kinds (handle ports req (new w)).1.frames d)
    reads_fd :
        (iface : String) (read : Result String api.CanFdFrame) (w : W)
        → Mem iface started.readers
        → Step d (publish kinds (fd_read ports api iface (new w) read).frames d)
    reads_classic :
        (iface : String) (read : Result String api.CanFrame) (w : W)
        → Mem iface started.readers
        → Step d (publish kinds (classic_read ports api iface (new w) read).frames d)
    emits :
        (ifaces : List String) (counter idx : ℕ) (iface : String) (w : W)
        → started.generator ≡ some ifaces
        → Mem iface ifaces
        → Step d (publish kinds (emit ports counter idx iface (new w)).frames d)

  pub data Reach (d : Daemon kinds) : Daemon kinds → Type 0 where
    here : Reach d d
    next : {e f : Daemon kinds} → Reach d e → Step e f → Reach d f
