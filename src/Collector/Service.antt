-- ===== src/Collector/Service.antt =====
-- Run of internal/collector/collector.go: the first round, and then one on each tick until the
-- context is done.
use nebula_mnemosina.Prelude.{ℕ, List, [], ◌∷◌, Option, some, ◌≡◌, refl, if◌then◌else◌}
use nebula_mnemosina.Errors.{Error}
use nebula_mnemosina.Model.{PollResult}
use nebula_mnemosina.Metrics.{Metrics}
use nebula_mnemosina.Config.{Cli}
use nebula_mnemosina.Collector.Round.{Store, run_round}

-- What the `select` of the loop receives: a tick, with the results that its round will find in the
-- channel, or the end of the context, with its error.
pub data Event : Type 0 where
  tick : List PollResult → Event
  done : Error → Event

-- Still waiting for an event, or returned with an error or none.
pub data Exit : Type 0 where
  waiting : Exit
  returned : Option Error → Exit

pub record Service (S : Type 0) : Type 0 where
  pub store : S
  pub metrics : Metrics
  pub rounds : ℕ

module _ {S : Type 0} (store : Store S) (cli : Cli) where
  -- One round; `rounds` counts them and is not in the program.
  unfoldable pub poll_round : List PollResult → Service S → Option Error × Service S
  poll_round results s =
      let (e, st) = run_round store cli.refresh_views results s.store s.metrics in
      (e, record { store = st.store; metrics = st.metrics; rounds = Prim.Native.Nat.suc s.rounds })

  -- The errors of rounds are logged only.
  loop : List Event → Service S → Exit × Service S
  loop [] s = (waiting, s)
  loop (done e ∷ events) s = (returned (some e), s)
  loop (tick results ∷ events) s = loop events (poll_round results s).1

  unfoldable pub run : List PollResult → List Event → Service S → Exit × Service S
  unfolding loop
  run first events s =
      let (e, s') = poll_round first s in
      let rest = loop events s' in if cli.once then (returned e, s') else rest

  -- The results of the ticks before the first `done`.
  abbrev pub ticks : List Event → List (List PollResult)
  ticks [] = []
  ticks (done e ∷ events) = []
  ticks (tick results ∷ events) = results ∷ ticks events

  abbrev pub ended : List Event → Exit
  ended [] = waiting
  ended (done e ∷ events) = returned (some e)
  ended (tick results ∷ events) = ended events

  abbrev pub all_rounds : List (List PollResult) → Service S → Service S
  all_rounds [] s = s
  all_rounds (r ∷ rs) s = all_rounds rs (poll_round r s).1

  loop_lem :
      (events : List Event) (s : Service S)
      → loop events s ≡ (ended events, all_rounds (ticks events) s)
  unfolding loop
  loop_lem [] s = refl
  loop_lem (done e ∷ events) s = refl
  loop_lem (tick results ∷ events) s = loop_lem events (poll_round results s).1

  -- Without `--once` no failed round ends the service: it runs one round at the start and one on
  -- each tick up to the end of the context, and returns only then, with the context's error. With
  -- `--once` it runs one round and returns that round's error.
  pub run_lem :
      (first : List PollResult) (events : List Event) (s : Service S)
      → run first events s ≡ (
          if cli.once
          then (
            returned (run_round store cli.refresh_views first s.store s.metrics).0,
            all_rounds (first ∷ []) s,
          )
          else (ended events, all_rounds (first ∷ ticks events) s))
  unfolding run poll_round
  run_lem first events s = rw (loop_lem events (poll_round first s).1)
