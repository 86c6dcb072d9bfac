-- ===== src/Task/Once.antt =====
-- The life of a task: minet/src/threading/Task.h.
use minet_core.Prelude.{true, false, List, [], ◌∷◌, none, some, ◌≡◌, refl}
use minet_core.Task.{
  Call, returned, not_started, no_state, not_joinable, Routine, Task, create, start_async, await,
  run, move, destroy_terminates,
}

-- A call on a task.
pub data Op : Type 0 where
  start_op : Op
  await_op : Op
  run_op : Op

module _ {W E A : Type 0} where
  -- The task after a call of `StartAsync`, which may throw.
  abbrev started : Task W E A → Call (Task W E A) → Task W E A
  started t (returned t') = t'
  started t c = t

  -- One call.
  abbrev pub perform : Op → Task W E A × W → Task W E A × W
  perform start_op (t, w) = (started t (start_async t), w)
  perform await_op (t, w) = let (r, t', w') = await t w in (t', w')
  perform run_op (t, w) = let (r, t', w') = run t w in (t', w')

  -- Calls in order.
  unfoldable pub perform_all : List Op → Task W E A × W → Task W E A × W
  perform_all [] s = s
  perform_all (o ∷ os) s = perform_all os (perform o s)

  -- A task that is started, and one that is awaited.
  abbrev pub running : Routine W E A → Task W E A
  running f = record { routine = none; future_valid = true; thread = some f }

  abbrev pub finished : Task W E A
  finished = record { routine = none; future_valid = false; thread = none }

  module _ (f : Routine W E A) (w : W) where
    -- The stages of a task, with what its routine worked on.
    pub data Stage : Task W E A × W → Type 0 where
      fresh : Stage (create f, w)
      runs : Stage (running f, w)
      done : Stage (finished, (f w).1)

    perform-Stage : (o : Op) {s : Task W E A × W} → Stage s → Stage (perform o s)
    unfolding start_async await run
    perform-Stage start_op fresh = runs
    perform-Stage start_op runs = runs
    perform-Stage start_op done = done
    perform-Stage await_op fresh = fresh
    perform-Stage await_op runs = done
    perform-Stage await_op done = done
    perform-Stage run_op fresh = done
    perform-Stage run_op runs = runs
    perform-Stage run_op done = done

    perform_all-Stage : (os : List Op) {s : Task W E A × W} → Stage s → Stage (perform_all os s)
    unfolding perform_all
    perform_all-Stage [] g = g
    perform_all-Stage (o ∷ os) g = perform_all-Stage os (perform-Stage o g)

    -- Whatever is called on a new task, it is new or runs, and its routine has changed nothing that was awaited,
    -- or its routine has run exactly once.
    pub perform_all-create : (os : List Op) → Stage (perform_all os (create f, w))
    perform_all-create os = perform_all-Stage os fresh

    -- The first call of `Run` gives what the routine gives; then every call throws.
    pub run-create :
        (run (create f) w ≡ (returned (f w).0, finished, (f w).1))
        × ((v : W) → run finished v ≡ (no_state, finished, v))
        × ((v : W) → await finished v ≡ (not_started, finished, v))
        × (start_async finished ≡ no_state)
    unfolding run start_async await
    run-create = (refl, (λ v. refl), (λ v. refl), refl)

    -- A task that runs and is moved cannot be awaited, and the end of what is left of it ends the program.
    move-running :
        (await (move (running f)).0 w ≡ (not_joinable, (move (running f)).0, w))
        × (destroy_terminates (move (running f)).1 ≡ true)
    unfolding await
    move-running = (refl, refl)
