-- ===== src/Collector/Round.antt =====
-- runRound of internal/collector/collector.go behind `close(results)`: every result is observed and
-- saved, and the views are refreshed. The store's methods pass its state along; a failure is
-- `some` error.
pub mod Laws
pub mod Stored
use nebula_mnemosina.Prelude.{
  ℕ, zero, suc, ◌+◌, Bool, true, false, ◌&&◌, List, [], ◌∷◌, ◌++◌, Option, none, some, ltb,
  if◌then◌else◌,
}
use nebula_mnemosina.Errors.{Piece, lit, str, Error, wrap}
use nebula_mnemosina.Model.{PollResult}
use nebula_mnemosina.Metrics.{Metrics, observe_poll}
use nebula_mnemosina.Collector.Poll.{join_nonempty}

-- The interface `Store` of the collector.
pub record Store (S : Type 0) : Type 0 where
  pub save_poll_result : PollResult → S → Option Error × S
  pub refresh_grafana_views : S → Option Error × S

pub record Round (S : Type 0) : Type 0 where
  pub store : S
  pub metrics : Metrics
  pub errs : List Error
  pub saved : ℕ

module _ {S : Type 0} where
  -- The rest of the loop body, behind the call of SavePollResult.
  count_save : PollResult → Option Error → Round S → Round S
  count_save r none st = record st { saved = st.saved + 1 }
  count_save r (some e) st = record st {
    errs = st.errs ++ wrap (lit "save " ∷ str r.lighthouse.name ∷ lit " poll" ∷ []) e ∷ [];
  }

  count_refresh : Option Error → Round S → Round S
  count_refresh none st = st
  count_refresh (some e) st = record st {
    errs = st.errs ++ wrap (lit "refresh grafana views" ∷ []) e ∷ [];
  }

module _ {S : Type 0} (store : Store S) where
  save_one : PollResult → Round S → Round S
  unfolding count_save
  save_one r st =
      let (e, s) = store.save_poll_result r st.store in
      count_save r e (record st { store = s; metrics = observe_poll r st.metrics })

  unfoldable pub drain : List PollResult → Round S → Round S
  unfolding save_one
  drain [] st = st
  drain (r ∷ rs) st = drain rs (save_one r st)

  refresh : Bool → Round S → Round S
  unfolding count_refresh
  refresh enabled st =
      let (e, s) = store.refresh_grafana_views st.store in
      if ltb 0 st.saved && enabled then count_refresh e (record st { store = s }) else st

  -- The returned error, and what the round leaves behind. The results come in the order in which
  -- they lie in the channel.
  unfoldable pub run_round : Bool → List PollResult → S → Metrics → Option Error × Round S
  unfolding refresh
  run_round refresh_views results s metrics =
      let st =
        refresh refresh_views
          (drain results (record { store = s; metrics = metrics; errs = []; saved = 0 })) in
      (join_nonempty st.errs, st)
