-- ===== src/Retention/Loop.antt =====
-- Run of internal/retention/retention.go: the loop around Prune.
use nebula_mnemosina.Prelude.{ℕ, Bool, true, false, not, List, [], ◌∷◌, ◌≡◌, refl, if◌then◌else◌}
use nebula_mnemosina.Time.{Time}
use nebula_mnemosina.Retention.{Store, World, Pruner, enabled, prune}

-- What the `select` receives: a tick, with the time at which the next run starts, or the end of the
-- context.
pub data Event : Type 0 where
  tick : Time → Event
  done : Event

module _ {S : Type 0} (store : Store S) (p : Pruner) (fuel : ℕ) where
  -- The errors of runs are logged only.
  unfoldable pub loop : Time → List Event → World S → World S
  loop now [] w = (prune store p fuel now w).1
  loop now (done ∷ events) w = (prune store p fuel now w).1
  loop now (tick next ∷ events) w = loop next events (prune store p fuel now w).1

  unfoldable pub run : Time → List Event → World S → World S
  unfolding loop
  run now events w = let w' = loop now events w in if not (enabled p) then w else w'

  -- The times of the runs up to the end of the context.
  abbrev pub run_times : List Event → List Time
  run_times [] = []
  run_times (done ∷ events) = []
  run_times (tick next ∷ events) = next ∷ run_times events

  abbrev pub all_runs : List Time → World S → World S
  all_runs [] w = w
  all_runs (now ∷ times) w = all_runs times (prune store p fuel now w).1

  loop_lem :
      (now : Time) (events : List Event) (w : World S)
      → loop now events w ≡ all_runs (now ∷ run_times events) w
  unfolding loop
  loop_lem now [] w = refl
  loop_lem now (done ∷ events) w = refl
  loop_lem now (tick next ∷ events) w = loop_lem next events (prune store p fuel now w).1

  -- A pruner with a period prunes at once and on each tick until the context ends, whatever fails; one
  -- without changes nothing.
  pub run_prunes :
      (now : Time) (events : List Event) (w : World S)
      → run now events w ≡ (if enabled p then all_runs (now ∷ run_times events) w else w)
  unfolding run
  run_prunes now events w = rw (loop_lem now events w) (go (enabled p))
    where
      go :
          (b : Bool)
          → (if not b then w else all_runs (now ∷ run_times events) w)
            ≡ (if b then all_runs (now ∷ run_times events) w else w)
      go true = refl
      go false = refl
