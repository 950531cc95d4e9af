-- ===== src/Collector/Round/Stored.antt =====
-- A round of internal/collector/collector.go on the store of internal/storage/storage.go.
use nebula_mnemosina.Prelude.{
  ℕ, ◌≤◌, Bool, true, List, [], ◌∷◌, ◌++◌, append_assoc, append-nil, Option, none, some, map,
  length, if◌then◌else◌, ==_iff, ◌≡◌, inl, inr, refl, sym, ◌∙◌, ap, arith, Option-cases,
}
use mathlib.Core.List.{map-append}
use nebula_mnemosina.Text.{Text}
use nebula_mnemosina.Time.{Time, micros}
use nebula_mnemosina.Errors.{Error, Result, ok, err}
use nebula_mnemosina.Metrics.{Metrics}
use nebula_mnemosina.Model.{PollResult, poll_success}
use nebula_mnemosina.Db.{PollRun, Session}
use nebula_mnemosina.Db.Views.{Functions}
use nebula_mnemosina.Db.Views.Refresh.{Database, refresh_view}
use nebula_mnemosina.Storage.{timestamptz}
use nebula_mnemosina.Storage.Save.{Marshal, save_poll_result, complete_params}
use nebula_mnemosina.Storage.Save.Body.{finished_run}
use nebula_mnemosina.Storage.Save.Exact.{save_poll_result_exact}
use nebula_mnemosina.Storage.Peers.{refresh_grafana_views}
use nebula_mnemosina.Storage.Peers.Refresh.{up_to_date, refresh_grafana_views_lem}
use nebula_mnemosina.Storage.Consistent.{IsConsistent}
use nebula_mnemosina.Storage.Consistent.Save.{save_poll_result-Keeps}
use nebula_mnemosina.Storage.Consistent.Reach.{unused}
use nebula_mnemosina.Collector.Round.{Store, run_round}
use nebula_mnemosina.Collector.Round.Laws.{
  save_all, count_saved, due, run_round_state, run_round_ok,
}

abbrev pub error_of : Result (Unit {0}) → Option Error
error_of (ok u) = none
error_of (err e) = some e

module _ {F : Type 0} (f : Functions F) (marshal : Marshal) where
  unfoldable pub database : Store (Database F)
  database = record {
    save_poll_result = λ r d.
        let (answer, s) = save_poll_result marshal r d.session in
        (error_of answer, record d { session = s });
    refresh_grafana_views = refresh_grafana_views (refresh_view f);
  }

-- What a run says of its poll.
abbrev pub run_of : PollRun → Text × Time × Bool
run_of r = (r.lighthouse_name, r.started_at, r.success)

abbrev pub poll_of : PollResult → Text × Time × Bool
poll_of p = (p.lighthouse.name, micros p.started_at, poll_success p)

error_of-none : (r : Result (Unit {0})) → error_of r ≡ none → r ≡ ok tt
error_of-none (ok u) h = refl
error_of-none (err e) h = absurd (ground arith)

finished_run_of :
    (marshal : Marshal) (r : PollResult) (id : ℕ) → run_of (finished_run marshal r id) ≡ poll_of r
unfolding complete_params timestamptz
finished_run_of marshal r id = rw ((==_iff id id).1 refl) refl

-- A save that succeeds adds the run of its poll.
saved_run :
    (marshal : Marshal) (r : PollResult) (s : Session)
    → IsConsistent s
    → (save_poll_result marshal r s).0 ≡ ok tt
    → map run_of (save_poll_result marshal r s).1.tables.poll_runs
      ≡ map run_of s.tables.poll_runs ++ poll_of r ∷ []
saved_run marshal r s h fine =
    elim (save_poll_result_exact marshal r s (unused s.next_run s.tables.poll_runs h.0)) [
      | inr (e, failed, same) ↦ absurd (ground (arith, fine, failed))
      | inl (done, tables) ↦
          ap (λ t. map run_of t.poll_runs) tables
          ∙ map-append run_of s.tables.poll_runs (finished_run marshal r s.next_run ∷ [])
          ∙ ap (λ x. map run_of s.tables.poll_runs ++ x ∷ []) (finished_run_of marshal r s.next_run)
    ]

count_saved_le :
    {S : Type 0} (store : Store S) (rs : List PollResult) (s : S)
    → count_saved store rs s ≤ length rs
count_saved_le store [] s = omega arith
count_saved_le store (r ∷ rs) s =
    let rest = count_saved_le store rs (store.save_poll_result r s).1 in
    elim (Option-cases (store.save_poll_result r s).0) [
      | inl p ↦ ground (arith, p, rest)
      | inr (e, p) ↦ ground (arith, p, rest)
    ]

-- Where every save succeeds, so does the first.
first_saved :
    {S : Type 0} (store : Store S) (r : PollResult) (rs : List PollResult) (s : S)
    → count_saved store (r ∷ rs) s ≡ length (r ∷ rs)
    → ((store.save_poll_result r s).0 ≡ none)
      × (count_saved store rs (store.save_poll_result r s).1 ≡ length rs)
first_saved store r rs s h =
    let rest = count_saved_le store rs (store.save_poll_result r s).1 in
    elim (Option-cases (store.save_poll_result r s).0) [
      | inl p ↦ (p, ground (arith, p, h))
      | inr (e, p) ↦ absurd (ground (arith, p, h, rest))
    ]

module _ {F : Type 0} (f : Functions F) (marshal : Marshal) where
  all_saved :
      (rs : List PollResult) (d : Database F)
      → IsConsistent d.session
      → count_saved (database f marshal) rs d ≡ length rs
      → let d' = save_all (database f marshal) rs d in
        IsConsistent d'.session
        × (map run_of d'.session.tables.poll_runs
            ≡ map run_of d.session.tables.poll_runs ++ map poll_of rs)
  all_saved [] d h all = (h, sym (append-nil _))
  all_saved (r ∷ rs) d h all =
      let (first, rest) = first_saved (database f marshal) r rs d all in
      let fine : (save_poll_result marshal r d.session).0 ≡ ok tt =
        unfold database in error_of-none (save_poll_result marshal r d.session).0 first in
      let keeps : IsConsistent ((database f marshal).save_poll_result r d).1.session =
        unfold database in ((save_poll_result-Keeps marshal r).follows d.session h).2 in
      let more : map run_of ((database f marshal).save_poll_result r d).1.session.tables.poll_runs
          ≡ map run_of d.session.tables.poll_runs ++ poll_of r ∷ [] =
        unfold database in saved_run marshal r d.session h fine in
      let (kept, runs) = all_saved rs ((database f marshal).save_poll_result r d).1 keeps rest in
      (
        kept,
        runs
            ∙ ap (λ x. x ++ map poll_of rs) more
            ∙ append_assoc (map run_of d.session.tables.poll_runs) (poll_of r ∷ [])
                (map poll_of rs),
      )

  -- A round with at least one result that returns no error, with the refresh enabled, on consistent
  -- tables: each result has its run, with its lighthouse, its start in whole microseconds rounded down,
  -- and its success, behind the earlier runs and
  -- in order; and all five views are up to date with the tables.
  pub run_round-database :
      (r : PollResult) (rs : List PollResult) (d : Database F) (m : Metrics)
      → IsConsistent d.session
      → (run_round (database f marshal) true (r ∷ rs) d m).0 ≡ none
      → let d' = (run_round (database f marshal) true (r ∷ rs) d m).1.store in
        (map run_of d'.session.tables.poll_runs
          ≡ map run_of d.session.tables.poll_runs ++ map poll_of (r ∷ rs))
        × (d'.views ≡ up_to_date f d'.session.tables)
  run_round-database r rs d m h fine =
      let store = database f marshal in
      let (all, refreshed) = (run_round_ok store true (r ∷ rs) d m).0 fine in
      let (kept, runs) = all_saved (r ∷ rs) d h all in
      let is_due : due store true (r ∷ rs) d ≡ true = ground (arith, all) in
      let saved = save_all store (r ∷ rs) d in
      let (views, tables) : ((store.refresh_grafana_views saved).1.views
            ≡ up_to_date f saved.session.tables)
          × ((store.refresh_grafana_views saved).1.session.tables ≡ saved.session.tables) =
        unfold database in refresh_grafana_views_lem f saved (refreshed is_due) in
      let out : (run_round store true (r ∷ rs) d m).1.store
          ≡ (store.refresh_grafana_views saved).1 =
        (run_round_state store true (r ∷ rs) d m).0
        ∙ ap (λ b. if b then (store.refresh_grafana_views saved).1 else saved) is_due in
      let same = ap (λ x. x.session.tables) out ∙ tables in
      (
        ap (λ t. map run_of t.poll_runs) same ∙ runs,
        ap (λ x. x.views) out ∙ views ∙ ap (up_to_date f) (sym same),
      )
