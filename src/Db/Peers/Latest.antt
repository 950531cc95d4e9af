-- ===== src/Db/Peers/Latest.antt =====
-- The runs of latest_poll in the query ListPresentHostmapPeers of internal/db/poll_runs.sql.go.
use nebula_mnemosina.Prelude.{Bool, true, false, ◌&&◌, List, ◌≡◌, ◌∙◌, ap, arith}
use nebula_mnemosina.Text.{Text, text_eq}
use nebula_mnemosina.Db.{PollRun}
use nebula_mnemosina.Db.Select.{select, count_if, order_by, distinct_on}
use nebula_mnemosina.Db.Select.All.{
  All, All-imp, All-both, All-true, All-select, All-of_select, All-order_by, All-of_order_by,
}
use nebula_mnemosina.Db.Select.Keys.{count_if-select, order_by-count}
use nebula_mnemosina.Db.Select.Distinct.{
  at_most_one, count_if-distinct_on, All-distinct_on, order_by-Sorted, distinct_on_first,
}
use nebula_mnemosina.Text.Laws.{texts_eq}
use nebula_mnemosina.Prelude.Eq.{beq_comm}
use nebula_mnemosina.Db.Peers.{newer, same_lighthouse, succeeded, latest_poll}

newer_asym : (a b : PollRun) → newer a b ≡ true → newer b a ≡ false
newer_asym a b h = ground arith

newer_trans : (a b c : PollRun) → newer b a ≡ false → newer c b ≡ false → newer c a ≡ false
newer_trans a b c h k = ground arith

-- Every run that is taken succeeded, and no run of its lighthouse that succeeded is newer.
pub latest_poll_newest :
    (runs : List PollRun)
    → All
        (λ p.
          (succeeded p ≡ true)
          × All (λ r. succeeded r ≡ true → same_lighthouse p r ≡ true → newer r p ≡ false) runs)
        (latest_poll runs)
unfolding latest_poll
latest_poll_newest runs =
    let sorted = order_by newer (select succeeded runs) in
    let first =
      distinct_on_first newer newer_asym newer_trans same_lighthouse
        (λ a b. beq_comm a.lighthouse_name b.lighthouse_name) sorted
        (order_by-Sorted newer newer_asym newer_trans (select succeeded runs)) in
    All-both _ _ (distinct_on same_lighthouse sorted)
      (All-distinct_on same_lighthouse (λ p. succeeded p ≡ true) sorted
        (All-order_by newer (λ p. succeeded p ≡ true) (select succeeded runs)
          (All-imp (λ p (e, u). e) _ (All-select (λ p. Unit {0}) succeeded runs (All-true runs)))))
      (All-imp
        (λ p h. All-of_select _ succeeded runs (All-of_order_by newer _ (select succeeded runs) h))
        _ first)

-- A lighthouse has one run among them if a run of it succeeded, and none otherwise.
pub latest_poll_once :
    (runs : List PollRun) (name : Text)
    → count_if (λ p. text_eq p.lighthouse_name name) (latest_poll runs)
      ≡ at_most_one (count_if (λ r. succeeded r && text_eq r.lighthouse_name name) runs)
unfolding latest_poll
latest_poll_once runs name =
    let p : PollRun → Bool = λ p. text_eq p.lighthouse_name name in
    count_if-distinct_on (λ p. p.lighthouse_name) name (order_by newer (select succeeded runs))
    ∙ ap at_most_one
        (order_by-count p newer (select succeeded runs) ∙ count_if-select p succeeded runs)
