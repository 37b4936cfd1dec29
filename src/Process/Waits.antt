-- ===== src/Process/Waits.antt =====
-- How `main` waits for the shutdown.
use can_bridge_daemon.Prelude.{
  ◌≡◌, refl, ap, ◌∙◌, Bool, true, false, String, List, [], ◌∷◌, Result, ok, err,
}
use can_bridge_daemon.Process.{
  Server, MainPhase, going, done, Process, Event, ctrl_c, ran, noticed, dropped, opened,
  main_noticed, on_ctrl_c, on_notice, on_main, step, run,
}

-- `main` sees the token among the events.
abbrev pub sees : List Event → Bool
sees [] = false
sees (main_noticed ∷ events) = true
sees (_ ∷ events) = sees events

-- The first Ctrl+C is received, and `main` sees the token behind it.
abbrev pub shuts_down : List Event → Bool
shuts_down [] = false
shuts_down (ctrl_c (ok _) ∷ events) = sees events
shuts_down (ctrl_c (err _) ∷ events) = false
shuts_down (_ ∷ events) = shuts_down events

abbrev pub has_returned : MainPhase → Bool
has_returned going = false
has_returned (done r) = true

module _ {A : Type 0} where
  ctrl_c-main :
      (w : Bool) (r : Result String (Unit {0})) (p : Process A) → (on_ctrl_c w r p).main ≡ p.main
  ctrl_c-main true (ok _) p = refl
  ctrl_c-main true (err _) p = refl
  ctrl_c-main false r p = refl

  ctrl_c-cancelled :
      (w : Bool) (r : Result String (Unit {0})) (p : Process A)
      → p.cancelled ≡ true
      → (on_ctrl_c w r p).cancelled ≡ true
  ctrl_c-cancelled true (ok _) p h = refl
  ctrl_c-cancelled true (err _) p h = h
  ctrl_c-cancelled false r p h = h

  unheard :
      (w : Bool) (r : Result String (Unit {0})) (p : Process A) → w ≡ false → on_ctrl_c w r p ≡ p
  unheard true r p e = cc e
  unheard false r p e = refl

  notice-state :
      (c : Bool) (server : Server) (p : Process A)
      → ((on_notice c server p).main ≡ p.main)
        × ((on_notice c server p).cancelled ≡ p.cancelled)
        × ((on_notice c server p).watching ≡ p.watching)
  notice-state true server p = (refl, refl, refl)
  notice-state false server p = (refl, refl, refl)

  still_waits : (m : MainPhase) (c : Bool) (p : Process A) → c ≡ false → on_main m c p ≡ p
  still_waits going true p e = cc e
  still_waits going false p e = refl
  still_waits (done r) c p e = refl

  main-done :
      (m : MainPhase) (c : Bool) (p : Process A)
      → p.main ≡ m
      → has_returned p.main ≡ true
      → has_returned (on_main m c p).main ≡ true
  main-done going true p e h = refl
  main-done going false p e h = h
  main-done (done r) c p e h = h

  pub run-done :
      (events : List Event) (p : Process A)
      → has_returned p.main ≡ true
      → has_returned (run p events).main ≡ true
  unfolding run step
  run-done [] p h = h
  run-done (ctrl_c r ∷ events) p h =
      run-done events (on_ctrl_c p.watching r p) (ap has_returned (ctrl_c-main p.watching r p) ∙ h)
  run-done (ran server r ∷ events) p h = run-done events (step p (ran server r)) h
  run-done (dropped server ∷ events) p h = run-done events (step p (dropped server)) h
  run-done (noticed server ∷ events) p h =
      run-done events (on_notice p.cancelled server p)
        (ap has_returned (notice-state p.cancelled server p).0 ∙ h)
  run-done (opened n fd classic ∷ events) p h = run-done events (step p (opened n fd classic)) h
  run-done (main_noticed ∷ events) p h =
      run-done events (on_main p.main p.cancelled p) (main-done p.main p.cancelled p refl h)

  -- With the token cancelled, `main` waits for nothing but to see it.
  run-cancelled :
      (events : List Event) (p : Process A)
      → p.main ≡ going
      → p.cancelled ≡ true
      → has_returned (run p events).main ≡ sees events
  unfolding run step
  run-cancelled [] p m c = ap has_returned m
  run-cancelled (ctrl_c r ∷ events) p m c =
      run-cancelled events (on_ctrl_c p.watching r p) (ctrl_c-main p.watching r p ∙ m)
        (ctrl_c-cancelled p.watching r p c)
  run-cancelled (ran server r ∷ events) p m c = run-cancelled events (step p (ran server r)) m c
  run-cancelled (dropped server ∷ events) p m c = run-cancelled events (step p (dropped server)) m c
  run-cancelled (noticed server ∷ events) p m c =
      let (m', c', w') = notice-state p.cancelled server p in
      run-cancelled events (on_notice p.cancelled server p) (m' ∙ m) (c' ∙ c)
  run-cancelled (opened n fd classic ∷ events) p m c =
      run-cancelled events (step p (opened n fd classic)) m c
  run-cancelled (main_noticed ∷ events) p m c =
      run-done events (on_main p.main p.cancelled p) (rw (m, c) refl)

  -- With neither the token nor a watcher, it waits for ever.
  run-unwatched :
      (events : List Event) (p : Process A)
      → p.main ≡ going
      → p.cancelled ≡ false
      → p.watching ≡ false
      → has_returned (run p events).main ≡ false
  unfolding run step
  run-unwatched [] p m c w = ap has_returned m
  run-unwatched (ctrl_c r ∷ events) p m c w =
      ap (λ q. has_returned (run q events).main) (unheard p.watching r p w)
      ∙ run-unwatched events p m c w
  run-unwatched (ran server r ∷ events) p m c w = run-unwatched events (step p (ran server r)) m c w
  run-unwatched (dropped server ∷ events) p m c w =
      run-unwatched events (step p (dropped server)) m c w
  run-unwatched (noticed server ∷ events) p m c w =
      let (m', c', w') = notice-state p.cancelled server p in
      run-unwatched events (on_notice p.cancelled server p) (m' ∙ m) (c' ∙ c) (w' ∙ w)
  run-unwatched (opened n fd classic ∷ events) p m c w =
      run-unwatched events (step p (opened n fd classic)) m c w
  run-unwatched (main_noticed ∷ events) p m c w =
      ap (λ q. has_returned (run q events).main) (still_waits p.main p.cancelled p c)
      ∙ run-unwatched events p m c w

  pub run-shuts_down :
      (events : List Event) (p : Process A)
      → p.main ≡ going
      → p.cancelled ≡ false
      → p.watching ≡ true
      → has_returned (run p events).main ≡ shuts_down events
  unfolding run step
  run-shuts_down [] p m c w = ap has_returned m
  run-shuts_down (ctrl_c (ok _) ∷ events) p m c w =
      rw w (run-cancelled events (record p { watching = false; cancelled = true }) m refl)
  run-shuts_down (ctrl_c (err _) ∷ events) p m c w =
      rw w (run-unwatched events (record p { watching = false }) m c refl)
  run-shuts_down (ran server r ∷ events) p m c w =
      run-shuts_down events (step p (ran server r)) m c w
  run-shuts_down (dropped server ∷ events) p m c w =
      run-shuts_down events (step p (dropped server)) m c w
  run-shuts_down (noticed server ∷ events) p m c w =
      let (m', c', w') = notice-state p.cancelled server p in
      run-shuts_down events (on_notice p.cancelled server p) (m' ∙ m) (c' ∙ c) (w' ∙ w)
  run-shuts_down (opened n fd classic ∷ events) p m c w =
      run-shuts_down events (step p (opened n fd classic)) m c w
  run-shuts_down (main_noticed ∷ events) p m c w =
      ap (λ q. has_returned (run q events).main) (still_waits p.main p.cancelled p c)
      ∙ run-shuts_down events p m c w
