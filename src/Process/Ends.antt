-- ===== src/Process/Ends.antt =====
-- When the process comes to its end: `main` has returned, and tokio drops the runtime, which waits for the threads of
-- `spawn_blocking` that run.
use can_bridge_daemon.Prelude.{
  ◌≡◌, sym, ap, ◌∙◌, subst, Bool, true, false, String, Option, none, some, List, map, All, Result,
  ◌||◌,
}
use can_bridge_daemon.Startup.{start_sources}
use can_bridge_daemon.Process.{
  Args, ThreadPhase, Process, spawn_readers, with_sources, launch, Event, run,
}
use can_bridge_daemon.Process.Launch.{parsed, addresses, main_phase, launch_lem}
use can_bridge_daemon.Process.Threads.{attempt, after, run-readers, spawned-waits, spawned-returns}
use can_bridge_daemon.Process.Waits.{shuts_down, has_returned, run-done, run-shuts_down}

abbrev pub is_some : Option String → Bool
is_some none = false
is_some (some e) = true

-- The documented behaviour of tokio: dropping the runtime, as `main` returns, waits for the blocking threads that run,
-- and for no other task.
pub record RuntimeLaws {A : Type 0} (Exits : Process A → Type 0) : Type 0 where
  pub drop_waits :
      (p : Process A)
      → Exits p
      → (has_returned p.main ≡ true) × All (λ r. ¬ (r.phase ≡ ThreadPhase.reading)) p.readers
  pub drop_returns :
      (p : Process A)
      → has_returned p.main ≡ true
      → All (λ r. r.phase ≡ ThreadPhase.returned) p.readers
      → Exits p

module _ {A : Type 0} where
  -- `main` of a process that is launched returns by an address that cannot be parsed, or by the shutdown.
  abbrev pub main_ends : (String → Result String A) → Args → List Event → Bool
  main_ends parse args events = is_some (parsed (addresses parse args)).1 || shuts_down events

  main_phase-ends :
      (e : Option String) (events : List Event) (p : Process A)
      → p.cancelled ≡ false
      → p.watching ≡ true
      → p.main ≡ main_phase e
      → has_returned (run p events).main ≡ (is_some e || shuts_down events)
  main_phase-ends none events p c w m = run-shuts_down events p m c w
  main_phase-ends (some x) events p c w m = run-done events p (ap has_returned m)

  launch-ends :
      (parse : String → Result String A) (args : Args) (answer : Result String (List String))
      (events : List Event)
      → has_returned (run (launch parse args answer) events).main ≡ main_ends parse args events
  unfolding with_sources
  launch-ends parse args answer events =
      let e = launch_lem parse args answer in
      main_phase-ends (parsed (addresses parse args)).1 events (launch parse args answer)
        (ap (λ q. q.cancelled) e) (ap (λ q. q.watching) e) (ap (λ q. q.main) e)

  launch-readers :
      (parse : String → Result String A) (args : Args) (answer : Result String (List String))
      (events : List Event)
      → (run (launch parse args answer) events).readers
        ≡ map (after events) (spawn_readers 0 (start_sources args.fake answer).readers)
  unfolding with_sources
  launch-readers parse args answer events =
      run-readers events (launch parse args answer)
      ∙ ap (λ q. map (after events) q.readers) (launch_lem parse args answer)

  -- Over the documented behaviour of tokio, whatever happens behind the launch: the process exits only if `main` has
  -- returned, by an address that cannot be parsed or by a Ctrl+C that is received, and no reader has
  -- opened a socket; and where that is so and every reader has failed to open its sockets, it does
  -- exit. What the servers return has no part in it.
  pub run-Exits :
      (Exits : Process A → Type 0)
      → RuntimeLaws Exits
      → (parse : String → Result String A) (args : Args) (answer : Result String (List String))
        (events : List Event)
      → (Exits (run (launch parse args answer) events)
          → (main_ends parse args events ≡ true)
            × All
                (λ r. ¬ (attempt r.thread events ≡ some true))
                (spawn_readers 0 (start_sources args.fake answer).readers))
        × (main_ends parse args events ≡ true
            → All
                (λ r. attempt r.thread events ≡ some false)
                (spawn_readers 0 (start_sources args.fake answer).readers)
            → Exits (run (launch parse args answer) events))
  run-Exits Exits laws parse args answer events =
      let p = run (launch parse args answer) events in
      let ifaces = (start_sources args.fake answer).readers in
      let ends = launch-ends parse args answer events in
      let threads = launch-readers parse args answer events in
      (
        λ x.
            let (returned, none_reads) = laws.drop_waits p x in
            (
              sym ends ∙ returned,
              spawned-waits events 0 ifaces
                  (subst (All (λ r. ¬ (r.phase ≡ ThreadPhase.reading))) threads none_reads),
            ),
        λ e h. laws.drop_returns p (ends ∙ e) (
            subst (All (λ r. r.phase ≡ ThreadPhase.returned)) (sym threads)
              (spawned-returns events 0 ifaces h)),
      )
