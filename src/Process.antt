-- ===== src/Process.antt =====
-- src/main.rs as a process: its arguments, the order in which it starts things, the tasks that run beside it, and its
-- way to the end. An address is of the type `A`, and `parse` is that of `SocketAddr`.
pub mod Launch
pub mod Threads
pub mod Stops
pub mod Waits
pub mod Ends
use can_bridge_daemon.Prelude.{
  ℕ, suc, Bool, true, false, not, String, Option, none, some, List, [], ◌∷◌, ◌++◌, foldl, map,
  Result, ok, err, ◌==◌, ◌||◌, if◌then◌else◌,
}
use can_bridge_daemon.Startup.{Started, start_sources}

-- `Args`
pub record Args : Type 0 where
  pub tcp_bind : String
  pub ws_bind : String
  pub grpc_bind : String
  pub fake : Bool

pub data Server : Type 0 where
  tcp ws grpc : Server

-- The task of a server: in its `run`, out of the `select!`, asked to stop by `abort`, or dropped for that.
pub data TaskPhase : Type 0 where
  running finished aborting aborted : TaskPhase

pub record ServerTask (A : Type 0) : Type 0 where
  pub server : Server
  pub addr : A
  pub phase : TaskPhase

-- The blocking thread of a reader: before its sockets, in one of its loops, or returned.
pub data ThreadPhase : Type 0 where
  opening reading returned : ThreadPhase

-- The threads are numbered in the order in which they are spawned.
pub record ReaderThread : Type 0 where
  pub thread : ℕ
  pub iface : String
  pub phase : ThreadPhase

-- `main` goes on, up to its wait for the token, or has returned.
pub data MainPhase : Type 0 where
  going : MainPhase
  done : Result String (Unit {0}) → MainPhase

-- `watching` is the task that waits for Ctrl+C, and `cancelled` the token. The servers are in the order in which they
-- were spawned.
pub record Process (A : Type 0) : Type 0 where
  pub watching : Bool
  pub cancelled : Bool
  pub readers : List ReaderThread
  pub generator : Option (List String)
  pub servers : List (ServerTask A)
  pub main : MainPhase

unfoldable pub spawn_readers : ℕ → List String → List ReaderThread
spawn_readers n [] = []
spawn_readers n (iface ∷ ifaces) =
    record { thread = n; iface = iface; phase = opening } ∷ spawn_readers (suc n) ifaces

module _ {A : Type 0} where
  -- `tokio::spawn` of a server's task
  abbrev pub spawn_server : Server → A → Process A → Process A
  spawn_server server addr p = record p {
    servers = p.servers ++ (record { server = server; addr = addr; phase = running } ∷ []);
  }

  -- What runs before the servers.
  unfoldable pub with_sources : Started → Process A
  unfolding spawn_readers
  with_sources started = record {
    watching = true;
    cancelled = false;
    readers = spawn_readers 0 started.readers;
    generator = started.generator;
    servers = [];
    main = going;
  }

  -- Each `parse()?`, and the server that is spawned behind it.
  abbrev pub start_grpc : Result String A → Process A → Process A
  start_grpc (err e) p = record p { main = done (err e) }
  start_grpc (ok addr) p = spawn_server grpc addr p

  abbrev pub start_ws : (String → Result String A) → Args → Result String A → Process A → Process A
  start_ws parse args (err e) p = record p { main = done (err e) }
  start_ws parse args (ok addr) p = start_grpc (parse args.grpc_bind) (spawn_server ws addr p)

  abbrev pub start_tcp : (String → Result String A) → Args → Result String A → Process A → Process A
  start_tcp parse args (err e) p = record p { main = done (err e) }
  start_tcp parse args (ok addr) p =
      start_ws parse args (parse args.ws_bind) (spawn_server tcp addr p)

  -- `main` up to its wait, by the answer of the discovery.
  unfoldable pub launch :
      (String → Result String A) → Args → Result String (List String) → Process A
  unfolding with_sources start_sources
  launch parse args answer =
      start_tcp parse args (parse args.tcp_bind) (with_sources (start_sources args.fake answer))

-- What happens: `ctrl_c()` of tokio returns; a server's `run` returns; a server's `select!` takes the token; tokio
-- drops a task that was asked to stop; a reader has tried its CAN-FD socket and then, where that did not open, its classic one; `main` sees the token.
pub data Event : Type 0 where
  ctrl_c : Result String (Unit {0}) → Event
  ran : Server → Result String (Unit {0}) → Event
  noticed : Server → Event
  dropped : Server → Event
  opened : ℕ → Bool → Bool → Event
  main_noticed : Event

unfoldable pub same_server : Server → Server → Bool
same_server tcp tcp = true
same_server ws ws = true
same_server grpc grpc = true
same_server _ _ = false

-- A task that is over stays so; one that is asked to stop can come to its end first.
abbrev pub leave : TaskPhase → TaskPhase
leave running = finished
leave finished = finished
leave aborting = finished
leave aborted = aborted

-- `JoinHandle::abort` only asks the task to stop.
abbrev pub abort : TaskPhase → TaskPhase
abort running = aborting
abort finished = finished
abort aborting = aborting
abort aborted = aborted

-- tokio drops the future of a task that was asked to stop.
abbrev pub drop : TaskPhase → TaskPhase
drop running = running
drop finished = finished
drop aborting = aborted
drop aborted = aborted

-- `run_one_iface_rx_blocking` returns only where neither socket opens.
abbrev pub tried : Bool → Bool → ThreadPhase → ThreadPhase
tried true classic opening = reading
tried false true opening = reading
tried false false opening = returned
tried fd classic reading = reading
tried fd classic returned = returned

unfoldable pub open_reader : ℕ → Bool → Bool → ReaderThread → ReaderThread
open_reader n fd classic r =
    if r.thread == n then record r { phase = tried fd classic r.phase } else r

module _ {A : Type 0} where
  unfoldable pub leave_server : Server → ServerTask A → ServerTask A
  unfolding same_server
  leave_server server task =
      if same_server task.server server then record task { phase = leave task.phase } else task

  unfoldable pub drop_server : Server → ServerTask A → ServerTask A
  unfolding same_server
  drop_server server task =
      if same_server task.server server then record task { phase = drop task.phase } else task

  abbrev pub abort_server : ServerTask A → ServerTask A
  abort_server task = record task { phase = abort task.phase }

  -- The watcher ends with its one signal.
  abbrev pub on_ctrl_c : Bool → Result String (Unit {0}) → Process A → Process A
  on_ctrl_c true (ok _) p = record p { watching = false; cancelled = true }
  on_ctrl_c true (err _) p = record p { watching = false }
  on_ctrl_c false r p = p

  abbrev pub on_notice : Bool → Server → Process A → Process A
  on_notice true server p = record p { servers = map (leave_server server) p.servers }
  on_notice false server p = p

  -- Behind `shutdown.cancelled().await`: the tasks are asked to stop, and not waited for.
  abbrev pub on_main : MainPhase → Bool → Process A → Process A
  on_main going true p = record p { servers = map abort_server p.servers; main = done (ok tt) }
  on_main going false p = p
  on_main (done r) cancelled p = p

  -- The result of a server is only logged.
  unfoldable pub step : Process A → Event → Process A
  unfolding leave_server drop_server open_reader
  step p (ctrl_c r) = on_ctrl_c p.watching r p
  step p (ran server r) = record p { servers = map (leave_server server) p.servers }
  step p (noticed server) = on_notice p.cancelled server p
  step p (dropped server) = record p { servers = map (drop_server server) p.servers }
  step p (opened n fd classic) = record p { readers = map (open_reader n fd classic) p.readers }
  step p main_noticed = on_main p.main p.cancelled p

  unfoldable pub run : Process A → List Event → Process A
  unfolding step
  run p events = foldl step p events
