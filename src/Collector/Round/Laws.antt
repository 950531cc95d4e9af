-- ===== src/Collector/Round/Laws.antt =====
-- What a round does with its results, whatever the store answers.
use mathlib.Core.Path.{ap₂}
use native.Mathlib.Nat.{zero-add}
use nebula_mnemosina.Prelude.{
  ℕ, suc, ◌+◌, ◌≤◌, Bool, true, ◌&&◌, List, [], ◌∷◌, Option, none, some, ◌≡◌, ◌↔◌, refl, ap, ◌∙◌,
  arith, length, length-append, ltb, if◌then◌else◌, inl, inr, Option-cases,
}
use nebula_mnemosina.Errors.{Error, wrap, lit, str}
use nebula_mnemosina.Model.{PollResult}
use nebula_mnemosina.Metrics.{Metrics, observe_poll}
use nebula_mnemosina.Collector.Poll.{join_nonempty}
use nebula_mnemosina.Collector.Round.{Store, Round, save_one, drain, refresh, run_round}

abbrev failed : Option Error → ℕ
failed none = 0
failed (some e) = 1

join_nonempty-none : (errs : List Error) → (join_nonempty errs ≡ none) ↔ (length errs ≡ 0)
unfolding join_nonempty
join_nonempty-none [] = (λ h. refl, λ h. refl)
join_nonempty-none (e ∷ errs) = (λ h. ground arith, λ h. absurd (omega arith))

module _ {S : Type 0} (store : Store S) where
  -- The store after every result has been handed to SavePollResult, once and in order.
  abbrev pub save_all : List PollResult → S → S
  save_all [] s = s
  save_all (r ∷ rs) s = save_all rs (store.save_poll_result r s).1

  -- How many of these saves succeed.
  abbrev pub count_saved : List PollResult → S → ℕ
  count_saved [] s = 0
  count_saved (r ∷ rs) s =
      let rest = count_saved rs (store.save_poll_result r s).1 in
      elim (store.save_poll_result r s).0 [ none ↦ suc rest | some e ↦ rest ]

  abbrev pub observe_all : List PollResult → Metrics → Metrics
  observe_all [] m = m
  observe_all (r ∷ rs) m = observe_all rs (observe_poll r m)

  -- What a loop over `rs` makes of the state `st`.
  abbrev Drained : List PollResult → Round S → Round S → Type 0
  Drained rs st out =
      (out.store ≡ save_all rs st.store)
      × (out.metrics ≡ observe_all rs st.metrics)
      × (out.saved ≡ st.saved + count_saved rs st.store)
      × (length out.errs + count_saved rs st.store ≡ length st.errs + length rs)

  drain_step :
      (r : PollResult) (rs : List PollResult) (st out : Round S)
      → Drained rs (save_one store r st) out
      → Drained (r ∷ rs) st out
  unfolding save_one
  drain_step r rs st out d = elim (Option-cases (store.save_poll_result r st.store).0) [
    | inl p ↦ ground (arith, p)
    | inr (e, p) ↦ ground (
      arith,
      p,
      length-append st.errs (wrap (lit "save " ∷ str r.lighthouse.name ∷ lit " poll" ∷ []) e ∷ []),
    )
  ]

  drain-Drained : (rs : List PollResult) (st : Round S) → Drained rs st (drain store rs st)
  unfolding drain
  drain-Drained [] st = (refl, refl, omega arith, omega arith)
  drain-Drained (r ∷ rs) st =
      drain_step r rs st (drain store rs (save_one store r st))
        (drain-Drained rs (save_one store r st))

  refresh_lem :
      (enabled : Bool) (st : Round S)
      → ((refresh store enabled st).store ≡ (
          if ltb 0 st.saved && enabled then (store.refresh_grafana_views st.store).1 else st.store))
        × ((refresh store enabled st).metrics ≡ st.metrics)
        × ((refresh store enabled st).saved ≡ st.saved)
  unfolding refresh
  refresh_lem enabled st = elim (Option-cases (store.refresh_grafana_views st.store).0) [
    | inl p ↦ ground (arith, p)
    | inr (e, p) ↦ ground (arith, p)
  ]

  -- Is the refresh of the views due?
  abbrev pub due : Bool → List PollResult → S → Bool
  due enabled rs s = ltb 0 (count_saved rs s) && enabled

  -- A failed save stops nothing: every result of a round is observed and handed to SavePollResult,
  -- once and in order. The views are refreshed behind that, exactly if a save succeeded and the
  -- refresh is enabled; and `saved` counts the saves that succeeded.
  pub run_round_state :
      (enabled : Bool) (rs : List PollResult) (s : S) (m : Metrics)
      → let out = (run_round store enabled rs s m).1 in
        (out.store ≡ (
          if due enabled rs s
          then (store.refresh_grafana_views (save_all rs s)).1
          else save_all rs s))
        × (out.metrics ≡ observe_all rs m)
        × (out.saved ≡ count_saved rs s)
  unfolding run_round
  run_round_state enabled rs s m =
      let st : Round S = record { store = s; metrics = m; errs = []; saved = 0 } in
      let (store_eq, metrics_eq, saved_eq, _) = drain-Drained rs st in
      let (store_eq', metrics_eq', saved_eq') = refresh_lem enabled (drain store rs st) in
      let saved_eq'' : (drain store rs st).saved ≡ count_saved rs s = saved_eq ∙ zero-add _ in
      (
        store_eq'
            ∙ ap₂ (λ n t. if ltb 0 n && enabled then (store.refresh_grafana_views t).1 else t)
                saved_eq'' store_eq,
        metrics_eq' ∙ metrics_eq,
        saved_eq' ∙ saved_eq'',
      )

  refresh_errs :
      (enabled : Bool) (st : Round S)
      → length (refresh store enabled st).errs
        ≡ length st.errs
          + (if ltb 0 st.saved && enabled
              then failed (store.refresh_grafana_views st.store).0
              else 0)
  unfolding refresh
  refresh_errs enabled st = elim (Option-cases (store.refresh_grafana_views st.store).0) [
    | inl p ↦ ground (arith, p)
    | inr (e, p) ↦
        ground (arith, p, length-append st.errs (wrap (lit "refresh grafana views" ∷ []) e ∷ []))
  ]

  -- The errors of a round: one for each save that failed, and one for a refresh that did.
  errs_lem :
      (enabled : Bool) (rs : List PollResult) (st : Round S)
      → st.errs ≡ []
      → st.saved ≡ 0
      → (length (refresh store enabled (drain store rs st)).errs + count_saved rs st.store
          ≡ length rs
            + (if due enabled rs st.store
                then failed (store.refresh_grafana_views (save_all rs st.store)).0
                else 0))
        × (count_saved rs st.store ≤ length rs)
  errs_lem enabled rs st no_errs none_saved =
      let (store_eq, metrics_eq, saved_eq, errs_eq) = drain-Drained rs st in
      let total : (drain store rs st).saved ≡ count_saved rs st.store = omega arith in
      let same : (if ltb 0 (drain store rs st).saved && enabled
            then failed (store.refresh_grafana_views (drain store rs st).store).0
            else 0)
          ≡ (if due enabled rs st.store
              then failed (store.refresh_grafana_views (save_all rs st.store)).0
              else 0) =
        ap₂ (λ n t. if ltb 0 n && enabled then failed (store.refresh_grafana_views t).0 else 0)
          total store_eq in
      let start : length st.errs ≡ 0 = ap length no_errs in
      (omega (arith, refresh_errs enabled (drain store rs st)), omega arith)

  -- A round returns no error exactly if every save succeeded, and so did the refresh if it was due.
  pub run_round_ok :
      (enabled : Bool) (rs : List PollResult) (s : S) (m : Metrics)
      → ((run_round store enabled rs s m).0 ≡ none) ↔ (
          (count_saved rs s ≡ length rs)
          × (due enabled rs s ≡ true → (store.refresh_grafana_views (save_all rs s)).0 ≡ none))
  unfolding run_round
  run_round_ok enabled rs s m =
      let st : Round S = record { store = s; metrics = m; errs = []; saved = 0 } in
      let (len, le) = errs_lem enabled rs st refl refl in
      let errs = (refresh store enabled (drain store rs st)).errs in
      elim (Option-cases (store.refresh_grafana_views (save_all rs s)).0) [
        | inl p ↦ (
          λ h. ground (arith, (join_nonempty-none errs).0 h),
          λ h. (join_nonempty-none errs).1 (ground arith),
        )
        | inr (e, p) ↦ (
          λ h. ground (arith, (join_nonempty-none errs).0 h),
          λ h. (join_nonempty-none errs).1 (ground arith),
        )
      ]
