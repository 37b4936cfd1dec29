-- ===== src/Process/Threads.antt =====
-- The reader threads of the process, by what is tried of their sockets.
use can_bridge_daemon.Prelude.{
  ℕ, ◌≡◌, refl, ap, ◌∙◌, Bool, true, false, String, Option, none, some, List, [], ◌∷◌, map, All,
  Result, ok, err, ◌==◌, ◌||◌, if◌then◌else◌, Bool-cases, inl, inr,
}
use can_bridge_daemon.Process.{
  Server, ThreadPhase, ReaderThread, MainPhase, going, done, Process, spawn_readers, Event, ctrl_c,
  ran, noticed, dropped, opened, main_noticed, tried, open_reader, on_ctrl_c, on_notice, on_main,
  step, run,
}

-- Whether the first try of a thread, if there is one, has opened a socket.
abbrev pub attempt : ℕ → List Event → Option Bool
attempt n [] = none
attempt n (opened m fd classic ∷ events) =
    let rest = attempt n events in if n == m then some (fd || classic) else rest
attempt n (_ ∷ events) = attempt n events

abbrev on_event : Event → ReaderThread → ReaderThread
on_event (opened n fd classic) r = open_reader n fd classic r
on_event (ctrl_c _) r = r
on_event (ran server _) r = r
on_event (noticed server) r = r
on_event (dropped server) r = r
on_event main_noticed r = r

abbrev pub after : List Event → ReaderThread → ReaderThread
after [] r = r
after (e ∷ events) r = after events (on_event e r)

map-same : {A : Type 0} (xs : List A) → xs ≡ map (λ x. x) xs
map-same [] = refl
map-same (x ∷ xs) = ap (λ l. x ∷ l) (map-same xs)

map-after :
    (e : Event) (events : List Event) (rs : List ReaderThread)
    → map (after events) (map (on_event e) rs) ≡ map (after (e ∷ events)) rs
map-after e events [] = refl
map-after e events (r ∷ rs) = ap (λ l. after events (on_event e r) ∷ l) (map-after e events rs)

module _ {A : Type 0} where
  ctrl_c-readers :
      (w : Bool) (r : Result String (Unit {0})) (p : Process A)
      → (on_ctrl_c w r p).readers ≡ p.readers
  ctrl_c-readers true (ok _) p = refl
  ctrl_c-readers true (err _) p = refl
  ctrl_c-readers false r p = refl

  notice-readers :
      (c : Bool) (server : Server) (p : Process A) → (on_notice c server p).readers ≡ p.readers
  notice-readers true server p = refl
  notice-readers false server p = refl

  main-readers : (m : MainPhase) (c : Bool) (p : Process A) → (on_main m c p).readers ≡ p.readers
  main-readers going true p = refl
  main-readers going false p = refl
  main-readers (done r) c p = refl

  step-readers : (p : Process A) (e : Event) → (step p e).readers ≡ map (on_event e) p.readers
  unfolding step
  step-readers p (ctrl_c r) = ctrl_c-readers p.watching r p ∙ map-same p.readers
  step-readers p (ran server r) = map-same p.readers
  step-readers p (noticed server) = notice-readers p.cancelled server p ∙ map-same p.readers
  step-readers p (dropped server) = map-same p.readers
  step-readers p (opened n fd classic) = refl
  step-readers p main_noticed = main-readers p.main p.cancelled p ∙ map-same p.readers

  pub run-readers :
      (events : List Event) (p : Process A) → (run p events).readers ≡ map (after events) p.readers
  unfolding run
  run-readers [] p = map-same p.readers
  run-readers (e ∷ events) p =
      run-readers events (step p e)
      ∙ ap (map (after events)) (step-readers p e)
      ∙ map-after e events p.readers

abbrev phase_of : Option Bool → ThreadPhase
phase_of none = ThreadPhase.opening
phase_of (some true) = ThreadPhase.reading
phase_of (some false) = ThreadPhase.returned

tried-phase :
    (fd classic : Bool) → tried fd classic ThreadPhase.opening ≡ phase_of (some (fd || classic))
tried-phase true classic = refl
tried-phase false true = refl
tried-phase false false = refl

-- A thread that has tried keeps its phase.
tried_once : (fd classic b : Bool) → tried fd classic (phase_of (some b)) ≡ phase_of (some b)
tried_once true classic true = refl
tried_once true classic false = refl
tried_once false true true = refl
tried_once false true false = refl
tried_once false false true = refl
tried_once false false false = refl

on_event-settled :
    (e : Event) (r : ReaderThread) (b : Bool)
    → r.phase ≡ phase_of (some b)
    → (on_event e r).phase ≡ phase_of (some b)
unfolding open_reader
on_event-settled (opened n fd classic) r b h = elim (Bool-cases (r.thread == n)) [
  | inl e ↦ rw (e, h) (tried_once fd classic b)
  | inr e ↦ rw e h
]
on_event-settled (ctrl_c _) r b h = h
on_event-settled (ran server _) r b h = h
on_event-settled (noticed server) r b h = h
on_event-settled (dropped server) r b h = h
on_event-settled main_noticed r b h = h

after-settled :
    (events : List Event) (r : ReaderThread) (b : Bool)
    → r.phase ≡ phase_of (some b)
    → (after events r).phase ≡ phase_of (some b)
after-settled [] r b h = h
after-settled (e ∷ events) r b h = after-settled events (on_event e r) b (on_event-settled e r b h)

taken_reader :
    (n : ℕ) (fd classic : Bool) (r : ReaderThread)
    → (r.thread == n) ≡ true
    → open_reader n fd classic r ≡ record r { phase = tried fd classic r.phase }
unfolding open_reader
taken_reader n fd classic r e = rw e refl

other_reader :
    (n : ℕ) (fd classic : Bool) (r : ReaderThread)
    → (r.thread == n) ≡ false
    → open_reader n fd classic r ≡ r
unfolding open_reader
other_reader n fd classic r e = rw e refl

-- A thread is where its first try has brought it.
after-attempt :
    (events : List Event) (r : ReaderThread)
    → r.phase ≡ ThreadPhase.opening
    → (after events r).phase ≡ phase_of (attempt r.thread events)
after-attempt [] r h = h
after-attempt (opened n fd classic ∷ events) r h = elim (Bool-cases (r.thread == n)) [
  | inl e ↦ rw e (
      ap (λ t. (after events t).phase) (taken_reader n fd classic r e)
      ∙ after-settled events (record r { phase = tried fd classic r.phase }) (fd || classic)
          (rw h (tried-phase fd classic)))
  | inr e ↦
      rw e (
        ap (λ t. (after events t).phase) (other_reader n fd classic r e) ∙ after-attempt events r h)
]
after-attempt (ctrl_c _ ∷ events) r h = after-attempt events r h
after-attempt (ran server _ ∷ events) r h = after-attempt events r h
after-attempt (noticed server ∷ events) r h = after-attempt events r h
after-attempt (dropped server ∷ events) r h = after-attempt events r h
after-attempt (main_noticed ∷ events) r h = after-attempt events r h

-- What is so of the threads behind the events is so of their first tries.
pub spawned-waits :
    (events : List Event) (n : ℕ) (ifaces : List String)
    → All (λ r. ¬ (r.phase ≡ ThreadPhase.reading)) (map (after events) (spawn_readers n ifaces))
    → All (λ r. ¬ (attempt r.thread events ≡ some true)) (spawn_readers n ifaces)
unfolding spawn_readers
spawned-waits events n [] h = tt
spawned-waits events n (iface ∷ ifaces) (h, hs) =
    (λ e. h (after-attempt events _ refl ∙ ap phase_of e), spawned-waits events _ ifaces hs)

pub spawned-returns :
    (events : List Event) (n : ℕ) (ifaces : List String)
    → All (λ r. attempt r.thread events ≡ some false) (spawn_readers n ifaces)
    → All (λ r. r.phase ≡ ThreadPhase.returned) (map (after events) (spawn_readers n ifaces))
unfolding spawn_readers
spawned-returns events n [] h = tt
spawned-returns events n (iface ∷ ifaces) (h, hs) =
    (after-attempt events _ refl ∙ ap phase_of h, spawned-returns events _ ifaces hs)
