-- ===== src/Tests/Shutdown.antt =====
-- The process of the daemon and the accepting of its TCP server at concrete inputs.
use can_bridge_daemon.Prelude.{
  ℕ, ◌≡◌, refl, true, false, String, Option, none, some, List, [], ◌∷◌, map, All, length, Result,
  ok, err, str_eq, if◌then◌else◌, arith,
}
use can_bridge_daemon.BinaryMessage.Packet.{magic}
use can_bridge_daemon.TcpJson.{trim}
use can_bridge_daemon.Discovery.{can_ifaces}
use can_bridge_daemon.Startup.{start_sources}
use can_bridge_daemon.Startup.Readers.{all_of}
use can_bridge_daemon.Process.{
  Args, Server, Process, ReaderThread, ThreadPhase, Event, launch, run, spawn_readers,
}
use can_bridge_daemon.Process.Launch.{parsed, addresses, opening_threads, Launched, launch-parsed}
use can_bridge_daemon.Process.Threads.{attempt}
use can_bridge_daemon.Process.Waits.{has_returned}
use can_bridge_daemon.Process.Ends.{main_ends, RuntimeLaws, run-Exits}
use can_bridge_daemon.Process.Stops.{ServersOf, run-ServersOf}
use can_bridge_daemon.TcpServer.Accepting
use can_bridge_daemon.TcpServer.Accepting.{
  Accepted, mode_of, before_error, first_error, consecutive, run-accepts,
}

-- A parser of two addresses, which are numbers.
abbrev parse : String → Result String ℕ
parse text =
    if str_eq text "127.0.0.1:9500"
    then ok 9500
    else if str_eq text "127.0.0.1:9501"
    then ok 9501
    else err "invalid socket address syntax"

abbrev args : Args
args = record {
  tcp_bind = "127.0.0.1:9500";
  ws_bind = "127.0.0.1:9501";
  grpc_bind = "127.0.0.1:9500";
  fake = false;
}

abbrev mistyped : Args
mistyped = record args { ws_bind = "localhost"; fake = true }

abbrev answer : Result String (List String)
answer = ok ("can0" ∷ "vcan0" ∷ [])

launch-parsed_example :
    ((links : List (Option String))
      → Launched parse mistyped
          (opening_threads 0 (map trim (can_ifaces links)))
          (if mistyped.fake then all_of (can_ifaces links) else none)
          (launch parse mistyped (ok (can_ifaces links))))
    × ((e : String) → Launched parse mistyped [] none (launch parse mistyped (err e)))
launch-parsed_example = launch-parsed parse mistyped

-- Behind a runtime whose drop ends with the threads.
abbrev Exits : Process ℕ → Type 0
Exits p = (has_returned p.main ≡ true) × All (λ r. r.phase ≡ ThreadPhase.returned) p.readers

none_reads :
    (rs : List ReaderThread)
    → All (λ r. r.phase ≡ ThreadPhase.returned) rs
    → All (λ r. ¬ (r.phase ≡ ThreadPhase.reading)) rs
none_reads [] h = tt
none_reads (r ∷ rs) (h, hs) = (λ e. cc (e, h), none_reads rs hs)

laws : RuntimeLaws Exits
laws = record {
  drop_waits = λ p x. (x.0, none_reads p.readers x.1);
  drop_returns = λ p e h. (e, h);
}

-- The reader of can0 has its socket, that of vcan0 none; the WebSocket server fails; then Ctrl+C.
abbrev events : List Event
events =
    Event.opened 0 false true
    ∷ Event.opened 1 false false
    ∷ Event.ran Server.ws (err "axum serve failed")
    ∷ Event.ctrl_c (ok tt)
    ∷ Event.main_noticed
    ∷ []

run-Exits_example :
    (Exits (run (launch parse args answer) events)
      → (main_ends parse args events ≡ true)
        × All
            (λ r. ¬ (attempt r.thread events ≡ some true))
            (spawn_readers 0 (start_sources false answer).readers))
    × (main_ends parse args events ≡ true
        → All
            (λ r. attempt r.thread events ≡ some false)
            (spawn_readers 0 (start_sources false answer).readers)
        → Exits (run (launch parse args answer) events))
run-Exits_example = run-Exits Exits laws parse args answer events

-- So the process does not exit, though `main` has returned.
main_ends_run : main_ends parse args events ≡ true
main_ends_run = refl

reads_run : attempt 0 events ≡ some true
reads_run = refl

run-ServersOf_example :
    ServersOf
      (parsed (addresses parse args)).0
      (run (launch parse args answer) events).main
      (run (launch parse args answer) events).servers
run-ServersOf_example = run-ServersOf parse args answer events

abbrev accepts : List (Result String (Result String (List ℕ)))
accepts = ok (ok magic) ∷ ok (err "reset") ∷ err "too many open files" ∷ ok (ok magic) ∷ []

run-accepts_example :
    (map (λ (s : Accepted). s.conn_id) (Accepting.run "127.0.0.1:9500" (ok tt) 1 accepts).0
      ≡ consecutive 1 (length (before_error accepts)))
    × (map (λ (s : Accepted). s.mode) (Accepting.run "127.0.0.1:9500" (ok tt) 1 accepts).0
        ≡ map mode_of (before_error accepts))
    × ((Accepting.run "127.0.0.1:9500" (ok tt) 1 accepts).1 ≡ first_error accepts)
run-accepts_example = run-accepts "127.0.0.1:9500" 1 accepts (omega arith)
