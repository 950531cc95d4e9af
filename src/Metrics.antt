-- ===== src/Metrics.antt =====
-- internal/metrics/metrics.go. A counter vector is the list of its increments, oldest first, each
-- with its labels; a histogram vector is the list of its observations. Seconds are kept as the
-- duration that they are computed from.
use nebula_mnemosina.Prelude.{ℕ, Bool, String, List, [], ◌∷◌, ◌++◌}
use nebula_mnemosina.Text.{Text}
use nebula_mnemosina.Time.{Duration}
use nebula_mnemosina.Model.{
  CommandResult, PollResult, command_duration, command_success, poll_duration, poll_success,
}

pub record Metrics : Type 0 where
  pub polls_total : List (Text × Bool)
  pub poll_durations : List (Text × Duration)
  pub command_total : List (Text × Text × Bool)
  pub command_durations : List (Text × Text × Duration)
  pub retention_runs_total : List Bool
  pub retention_deleted_rows_total : List (String × ℕ)
  pub retention_dropped_chunks_total : List (String × ℕ)

abbrev pub no_metrics : Metrics
no_metrics = record {
  polls_total = [];
  poll_durations = [];
  command_total = [];
  command_durations = [];
  retention_runs_total = [];
  retention_deleted_rows_total = [];
  retention_dropped_chunks_total = [];
}

observe_command : Text → CommandResult → Metrics → Metrics
observe_command lighthouse c m = record m {
  command_total = m.command_total ++ (lighthouse, c.command, command_success c) ∷ [];
  command_durations = m.command_durations ++ (lighthouse, c.command, command_duration c) ∷ [];
}

observe_commands : Text → List CommandResult → Metrics → Metrics
unfolding observe_command
observe_commands lighthouse [] m = m
observe_commands lighthouse (c ∷ cs) m =
    observe_commands lighthouse cs (observe_command lighthouse c m)

unfoldable pub observe_poll : PollResult → Metrics → Metrics
unfolding observe_commands
observe_poll r m = observe_commands r.lighthouse.name r.commands (record m {
  polls_total = m.polls_total ++ (r.lighthouse.name, poll_success r) ∷ [];
  poll_durations = m.poll_durations ++ (r.lighthouse.name, poll_duration r) ∷ [];
})

unfoldable pub observe_retention_run : Bool → Metrics → Metrics
observe_retention_run success m = record m {
  retention_runs_total = m.retention_runs_total ++ success ∷ [];
}

unfoldable pub observe_deleted_rows : String → ℕ → Metrics → Metrics
observe_deleted_rows table rows m = record m {
  retention_deleted_rows_total = m.retention_deleted_rows_total ++ (table, rows) ∷ [];
}

unfoldable pub observe_dropped_chunks : String → ℕ → Metrics → Metrics
observe_dropped_chunks table chunks m = record m {
  retention_dropped_chunks_total = m.retention_dropped_chunks_total ++ (table, chunks) ∷ [];
}
