-- ===== src/Process/Launch.antt =====
-- What is started where an address cannot be parsed.
use can_bridge_daemon.Prelude.{
  ℕ, suc, ◌≡◌, refl, ◌∙◌, Bool, true, false, String, Option, none, some, List, [], ◌∷◌, map, Result,
  ok, err, Result-cases, inl, inr, if◌then◌else◌,
}
use can_bridge_daemon.TcpJson.{trim}
use can_bridge_daemon.Discovery.{can_ifaces}
use can_bridge_daemon.Startup.{start_sources}
use can_bridge_daemon.Startup.Readers.{all_of, start_sources-can_ifaces}
use can_bridge_daemon.Process.{
  Args, Server, TaskPhase, ThreadPhase, ReaderThread, ServerTask, going, done, MainPhase, Process,
  spawn_readers, with_sources, launch,
}

-- The addresses in the order of the servers, up to the first that cannot be parsed, and its error.
abbrev pub parsed :
    {A : Type 0} → List (Server × Result String A) → List (Server × A) × Option String
parsed [] = ([], none)
parsed ((server, err e) ∷ rest) = ([], some e)
parsed ((server, ok addr) ∷ rest) = let (addrs, e) = parsed rest in ((server, addr) ∷ addrs, e)

-- The addresses of the arguments.
abbrev pub addresses :
    {A : Type 0} → (String → Result String A) → Args → List (Server × Result String A)
addresses parse args =
    (Server.tcp, parse args.tcp_bind)
    ∷ (Server.ws, parse args.ws_bind)
    ∷ (Server.grpc, parse args.grpc_bind)
    ∷ []

abbrev pub server_task : {A : Type 0} → Server × A → ServerTask A
server_task (server, addr) = record { server = server; addr = addr; phase = TaskPhase.running }

abbrev pub main_phase : Option String → MainPhase
main_phase none = going
main_phase (some e) = done (err e)

-- Every address has its server or is behind the error.
pub launch_lem :
    {A : Type 0} (parse : String → Result String A) (args : Args)
    (answer : Result String (List String))
    → launch parse args answer ≡ record (with_sources (start_sources args.fake answer)) {
      servers = map server_task (parsed (addresses parse args)).0;
      main = main_phase (parsed (addresses parse args)).1;
    }
unfolding launch with_sources
launch_lem parse args answer = elim (Result-cases (parse args.tcp_bind)) [
  | inr (e, x) ↦ rw x refl
  | inl (a, x) ↦ elim (Result-cases (parse args.ws_bind)) [
    | inr (e, y) ↦ rw (x, y) refl
    | inl (b, y) ↦ elim (Result-cases (parse args.grpc_bind)) [
      | inr (e, z) ↦ rw (x, y, z) refl
      | inl (c, z) ↦ rw (x, y, z) refl
    ]
  ]
]

-- A thread for every name, by the number it has, in front of its sockets.
abbrev pub opening_threads : ℕ → List String → List ReaderThread
opening_threads n [] = []
opening_threads n (name ∷ names) =
    record { thread = n; iface = name; phase = ThreadPhase.opening } ∷ opening_threads (suc n) names

spawn_readers-opening :
    (n : ℕ) (names : List String) → spawn_readers n names ≡ opening_threads n names
unfolding spawn_readers
spawn_readers-opening n [] = refl
spawn_readers-opening n (name ∷ names) = rw (spawn_readers-opening (suc n) names) refl

module _ {A : Type 0} (parse : String → Result String A) (args : Args) where
  -- The process behind the launch, with these threads and this generator.
  abbrev pub Launched : List ReaderThread → Option (List String) → Process A → Type 0
  Launched readers generator p = p ≡ record {
    watching = true;
    cancelled = false;
    readers = readers;
    generator = generator;
    servers = map server_task (parsed (addresses parse args)).0;
    main = main_phase (parsed (addresses parse args)).1;
  }

  nothing_started :
      (fake : Bool) (e : String)
      → start_sources fake (err e) ≡ record { readers = []; generator = none }
  unfolding start_sources
  nothing_started true e = refl
  nothing_started false e = refl

  with_sources-Launched :
      (answer : Result String (List String)) (names : List String)
      (generator : Option (List String))
      → start_sources args.fake answer ≡ record { readers = names; generator = generator }
      → Launched (opening_threads 0 names) generator (launch parse args answer)
  unfolding with_sources
  with_sources-Launched answer names generator e =
      launch_lem parse args answer ∙ rw (e, spawn_readers-opening 0 names) refl

  -- The readers and the generator are started whatever the addresses are. Where the discovery answers with the names of
  -- the CAN interfaces among some links, one thread is started for each name, trimmed, in their order,
  -- before its sockets, and the fake generator, where it is asked for and there are names, on all of
  -- them; where the discovery fails, none of them. Of the servers, in the order TCP, WebSocket, gRPC,
  -- those are spawned, each on its own address, that come before the first address that cannot be
  -- parsed, with whose error `main` returns; without one, it goes on to its wait. The watcher of Ctrl+C
  -- waits, and the token is not cancelled.
  pub launch-parsed :
      ((links : List (Option String))
        → Launched
            (opening_threads 0 (map trim (can_ifaces links)))
            (if args.fake then all_of (can_ifaces links) else none)
            (launch parse args (ok (can_ifaces links))))
      × ((e : String) → Launched [] none (launch parse args (err e)))
  launch-parsed = (
    λ links. with_sources-Launched _ _ _ (start_sources-can_ifaces args.fake links),
    λ e. with_sources-Launched _ _ _ (nothing_started args.fake e),
  )
