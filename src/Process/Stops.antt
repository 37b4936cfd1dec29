-- ===== src/Process/Stops.antt =====
-- The servers of the process, up to its shutdown.
use can_bridge_daemon.Prelude.{
  ◌≡◌, ◌⊎◌, refl, sym, ◌∙◌, subst, Bool, true, false, String, Option, none, some, List, [], ◌∷◌,
  map, All, Result, ok, err, Bool-cases, inl, inr,
}
use can_bridge_daemon.Process.{
  Args, Server, ServerTask, TaskPhase, MainPhase, going, done, Process, with_sources, launch, Event,
  ctrl_c, ran, noticed, dropped, opened, main_noticed, leave, abort, drop, leave_server,
  drop_server, abort_server, same_server, on_ctrl_c, on_notice, on_main, step, run,
}
use can_bridge_daemon.Process.Launch.{parsed, addresses, main_phase, server_task, launch_lem}

not_running : (p : TaskPhase) → ¬ (abort p ≡ TaskPhase.running)
not_running TaskPhase.running e = cc e
not_running TaskPhase.finished e = cc e
not_running TaskPhase.aborting e = cc e
not_running TaskPhase.aborted e = cc e

-- A task that `main` has asked to stop, or that was dropped for that.
abbrev pub IsAsked : TaskPhase → Type 0
IsAsked p = (p ≡ TaskPhase.aborting) ⊎ (p ≡ TaskPhase.aborted)

leave-stopped : (p : TaskPhase) → ¬ (leave p ≡ TaskPhase.running)
leave-stopped TaskPhase.running e = cc e
leave-stopped TaskPhase.finished e = cc e
leave-stopped TaskPhase.aborting e = cc e
leave-stopped TaskPhase.aborted e = cc e

running_IsAsked : ¬ IsAsked TaskPhase.running
running_IsAsked (inl e) = cc e
running_IsAsked (inr e) = cc e

leave-kept : (p : TaskPhase) → ¬ IsAsked p → ¬ IsAsked (leave p)
leave-kept TaskPhase.running h (inl e) = cc e
leave-kept TaskPhase.running h (inr e) = cc e
leave-kept TaskPhase.finished h e = h e
leave-kept TaskPhase.aborting h e = h (inl refl)
leave-kept TaskPhase.aborted h e = h e

drop-stopped : (p : TaskPhase) → ¬ (p ≡ TaskPhase.running) → ¬ (drop p ≡ TaskPhase.running)
drop-stopped TaskPhase.running h e = h e
drop-stopped TaskPhase.finished h e = h e
drop-stopped TaskPhase.aborting h e = cc e
drop-stopped TaskPhase.aborted h e = h e

drop-kept : (p : TaskPhase) → ¬ IsAsked p → ¬ IsAsked (drop p)
drop-kept TaskPhase.running h e = h e
drop-kept TaskPhase.finished h e = h e
drop-kept TaskPhase.aborting h e = h (inl refl)
drop-kept TaskPhase.aborted h e = h e

not_done : (e : Option String) → ¬ (main_phase e ≡ done (ok tt))
not_done none h = cc h
not_done (some x) h = cc h

module _ {A : Type 0} where
  abbrev pub place : ServerTask A → Server × A
  place task = (task.server, task.addr)

  abbrev pub Stopped : List (ServerTask A) → Type 0
  Stopped = All (λ t. ¬ (t.phase ≡ TaskPhase.running))

  abbrev pub NoneAsked : List (ServerTask A) → Type 0
  NoneAsked = All (λ t. ¬ IsAsked t.phase)

  -- The servers are those that were spawned, each once; behind the shutdown each is over or asked to stop, and before it
  -- none is asked to stop.
  abbrev pub ServersOf : List (Server × A) → MainPhase → List (ServerTask A) → Type 0
  ServersOf spawned main tasks =
      (map place tasks ≡ spawned)
      × (main ≡ done (ok tt) → Stopped tasks)
      × (main ≡ going → NoneAsked tasks)

  -- What keeps a task at its place, and neither starts it again nor asks it to stop.
  abbrev Settles : (ServerTask A → ServerTask A) → Type 0
  Settles f =
      (t : ServerTask A)
      → (place (f t) ≡ place t)
        × (¬ (t.phase ≡ TaskPhase.running) → ¬ ((f t).phase ≡ TaskPhase.running))
        × (¬ IsAsked t.phase → ¬ IsAsked (f t).phase)

  leave_server-Settles : (server : Server) → Settles (leave_server server)
  unfolding leave_server
  leave_server-Settles server t = elim (Bool-cases (same_server t.server server)) [
    | inl e ↦ rw e (refl, λ h. leave-stopped t.phase, leave-kept t.phase)
    | inr e ↦ rw e (refl, λ h. h, λ h. h)
  ]

  drop_server-Settles : (server : Server) → Settles (drop_server server)
  unfolding drop_server
  drop_server-Settles server t = elim (Bool-cases (same_server t.server server)) [
    | inl e ↦ rw e (refl, drop-stopped t.phase, drop-kept t.phase)
    | inr e ↦ rw e (refl, λ h. h, λ h. h)
  ]

  settled-ServersOf :
      (f : ServerTask A → ServerTask A)
      → Settles f
      → (spawned : List (Server × A)) (main : MainPhase) (tasks : List (ServerTask A))
      → ServersOf spawned main tasks
      → ServersOf spawned main (map f tasks)
  settled-ServersOf f settles spawned main tasks (e, h, k) =
      (same tasks ∙ e, λ m. stopped tasks (h m), λ m. kept tasks (k m))
    where
      same : (ts : List (ServerTask A)) → map place (map f ts) ≡ map place ts
      same [] = refl
      same (t ∷ ts) = cc (same ts, (settles t).0)

      stopped : (ts : List (ServerTask A)) → Stopped ts → Stopped (map f ts)
      stopped [] h = tt
      stopped (t ∷ ts) (h, hs) = ((settles t).1 h, stopped ts hs)

      kept : (ts : List (ServerTask A)) → NoneAsked ts → NoneAsked (map f ts)
      kept [] h = tt
      kept (t ∷ ts) (h, hs) = ((settles t).2 h, kept ts hs)

  abort-Stopped : (ts : List (ServerTask A)) → Stopped (map abort_server ts)
  abort-Stopped [] = tt
  abort-Stopped (t ∷ ts) = (not_running t.phase, abort-Stopped ts)

  abort-same : (ts : List (ServerTask A)) → map place (map abort_server ts) ≡ map place ts
  abort-same [] = refl
  abort-same (t ∷ ts) = cc (abort-same ts)

  abbrev IsServed : List (Server × A) → Process A → Type 0
  IsServed spawned p = ServersOf spawned p.main p.servers

  ctrl_c-IsServed :
      (w : Bool) (r : Result String (Unit {0})) (spawned : List (Server × A)) (p : Process A)
      → IsServed spawned p
      → IsServed spawned (on_ctrl_c w r p)
  ctrl_c-IsServed true (ok _) spawned p h = h
  ctrl_c-IsServed true (err _) spawned p h = h
  ctrl_c-IsServed false r spawned p h = h

  notice-IsServed :
      (c : Bool) (server : Server) (spawned : List (Server × A)) (p : Process A)
      → IsServed spawned p
      → IsServed spawned (on_notice c server p)
  notice-IsServed true server spawned p h =
      settled-ServersOf (leave_server server) (leave_server-Settles server) spawned p.main p.servers
        h
  notice-IsServed false server spawned p h = h

  main-IsServed :
      (m : MainPhase) (c : Bool) (spawned : List (Server × A)) (p : Process A)
      → IsServed spawned p
      → IsServed spawned (on_main m c p)
  main-IsServed going true spawned p (e, h, k) =
      (abort-same p.servers ∙ e, λ m. abort-Stopped p.servers, λ m. cc m)
  main-IsServed going false spawned p h = h
  main-IsServed (done r) c spawned p h = h

  step-IsServed :
      (spawned : List (Server × A)) (p : Process A) (e : Event)
      → IsServed spawned p
      → IsServed spawned (step p e)
  unfolding step
  step-IsServed spawned p (ctrl_c r) h = ctrl_c-IsServed p.watching r spawned p h
  step-IsServed spawned p (ran server r) h =
      settled-ServersOf (leave_server server) (leave_server-Settles server) spawned p.main p.servers
        h
  step-IsServed spawned p (noticed server) h = notice-IsServed p.cancelled server spawned p h
  step-IsServed spawned p (dropped server) h =
      settled-ServersOf (drop_server server) (drop_server-Settles server) spawned p.main p.servers h
  step-IsServed spawned p (opened n fd classic) h = h
  step-IsServed spawned p main_noticed h = main-IsServed p.main p.cancelled spawned p h

  run-IsServed :
      (spawned : List (Server × A)) (events : List Event) (p : Process A)
      → IsServed spawned p
      → IsServed spawned (run p events)
  unfolding run
  run-IsServed spawned [] p h = h
  run-IsServed spawned (e ∷ events) p h =
      run-IsServed spawned events (step p e) (step-IsServed spawned p e h)

  launched-ServersOf :
      (spawned : List (Server × A)) (e : Option String)
      → ServersOf spawned (main_phase e) (map server_task spawned)
  launched-ServersOf spawned e = (places spawned, λ m. absurd (not_done e m), λ m. kept spawned)
    where
      places : (xs : List (Server × A)) → map place (map server_task xs) ≡ xs
      places [] = refl
      places (x ∷ xs) = cc (places xs)

      kept : (xs : List (Server × A)) → NoneAsked (map server_task xs)
      kept [] = tt
      kept (x ∷ xs) = (λ m. running_IsAsked m, kept xs)

  -- Whatever happens behind the launch: the tasks of the servers are those that were spawned, each on its address, and
  -- none is spawned again; once `main` has returned by the shutdown each has ended or has been asked to
  -- stop; and none is asked to stop while `main` has not returned.
  pub run-ServersOf :
      (parse : String → Result String A) (args : Args) (answer : Result String (List String))
      (events : List Event)
      → ServersOf
          (parsed (addresses parse args)).0
          (run (launch parse args answer) events).main
          (run (launch parse args answer) events).servers
  unfolding with_sources
  run-ServersOf parse args answer events =
      run-IsServed (parsed (addresses parse args)).0 events (launch parse args answer) (
        subst (IsServed (parsed (addresses parse args)).0) (sym (launch_lem parse args answer))
          (launched-ServersOf (parsed (addresses parse args)).0 (parsed (addresses parse args)).1))
