-- ===== src/Db/Views/Health.antt =====
-- mnemo_poll_health_5m of db/migrations/views/001_grafana_views.sql.
use nebula_mnemosina.Prelude.{
  ◌<◌, Bool, ◌&&◌, true, false, not, List, [], ◌∷◌, some, map, length, ◌≡◌, inl, inr, refl, sym,
  ◌∙◌, ap, subst, arith, Bool-cases,
}
use nebula_mnemosina.Prelude.Eq.{int_eq, pair_eq}
use nebula_mnemosina.Text.{Text, text_eq}
use nebula_mnemosina.Text.Laws.{texts_eq}
use nebula_mnemosina.Time.{Time, earlier}
use nebula_mnemosina.Db.{PollRun, Tables}
use nebula_mnemosina.Db.Select.{select, count_if, group_by}
use nebula_mnemosina.Db.Select.All.{
  All, Any, Any-of_map, Any-imp, Any-of_select, All-imp, All-map, All-of_map, All-of_select,
}
use nebula_mnemosina.Db.Select.Keys.{length-select, count_if-select}
use nebula_mnemosina.Db.Select.Group.{total, total_eq, total-map, group_by-count, group_by-rows}
use nebula_mnemosina.Db.Views.{Functions, MnemoPollHealth5m}
use nebula_mnemosina.Db.Views.Queries.{later, latest, health_row, health_group, poll_health_5m}

earlier_irreflexive : (t : Time) → earlier t t ≡ false
earlier_irreflexive t = ground arith

later_left : (t u : Time) → earlier (later t u) t ≡ false
unfolding later
later_left t u = elim (Bool-cases (earlier t u)) [
  | inl e ↦ rw e (ground (arith, e))
  | inr e ↦ rw e (earlier_irreflexive t)
]

later_right : (t u x : Time) → earlier u x ≡ false → earlier (later t u) x ≡ false
unfolding later
later_right t u x h = elim (Bool-cases (earlier t u)) [
  | inl e ↦ rw e h
  | inr e ↦ rw e (ground (arith, e, h))
]

-- The later of an instant and of one among some is among them all.
one_of_two : (t u : Time) (ts : List Time) → Any (λ x. x ≡ u) ts → Any (λ x. x ≡ later t u) (t ∷ ts)
one_of_two t u ts h = elim (Bool-cases (earlier t u)) [
  | inl e ↦
      let is_u : u ≡ later t u = unfold later in rw e refl in inr (Any-imp (λ x k. k ∙ is_u) ts h)
  | inr e ↦ inl (unfold later in rw e refl)
]

-- The greatest of some instants is one of them, and none is later.
latest_bound :
    (t : Time) (ts : List Time)
    → (u : Time) × (latest (t ∷ ts) ≡ some u)
      × Any (λ x. x ≡ u) (t ∷ ts)
      × All (λ x. earlier u x ≡ false) (t ∷ ts)
unfolding latest
latest_bound t [] = (t, refl, inl refl, (earlier_irreflexive t, tt))
latest_bound t (v ∷ ts) =
    let (u, e, found, bound) = latest_bound v ts in
    (
      later t u,
      rw e refl,
      one_of_two t u (v ∷ ts) found,
      (later_left t u, All-imp (λ x. later_right t u x) (v ∷ ts) bound),
    )

latest_of :
    (runs : List PollRun)
    → 0 < length runs
    → (u : Time) × (latest (map (λ r. r.started_at) runs) ≡ some u)
      × Any (λ r. r.started_at ≡ u) runs
      × All (λ r. earlier u r.started_at ≡ false) runs
latest_of [] h = absurd (omega arith)
latest_of (r ∷ runs) h =
    let (u, e, found, bound) = latest_bound r.started_at (map (λ r. r.started_at) runs) in
    (
      u,
      e,
      Any-of_map (λ r. r.started_at) (λ x. x ≡ u) (r ∷ runs) found,
      All-of_map (λ r. r.started_at) (λ x. earlier u x ≡ false) (r ∷ runs) bound,
    )

count_all : (runs : List PollRun) → count_if (λ r. true) runs ≡ length runs
unfolding count_if
count_all [] = refl
count_all (r ∷ runs) = omega (arith, count_all runs)

unless : (a b : Bool) → (a ≡ true → b ≡ false) → (a && b) ≡ false
unless true b h = h refl
unless false b h = refl

module _ {F : Type 0} (f : Functions F) where
  -- A run of the bucket and of the lighthouse of a row.
  abbrev pub is_of : MnemoPollHealth5m F → PollRun → Bool
  is_of h r =
      int_eq.beq (f.date_bin r.started_at) h.bucket && text_eq r.lighthouse_name h.lighthouse_name

  -- A row that has what it says of its runs, of which there is one: how many there are, how many
  -- succeeded and failed, the percentile of their durations, and the start of the latest.
  abbrev pub IsSound : List PollRun → MnemoPollHealth5m F → Type 0
  IsSound runs h =
      (0 < h.polls)
      × (h.polls ≡ count_if (is_of h) runs)
      × (h.successful_polls ≡ count_if (λ r. is_of h r && r.success) runs)
      × (h.failed_polls ≡ count_if (λ r. is_of h r && not r.success) runs)
      × (h.p95_duration_ms ≡ f.percentile (map (λ r. r.duration_ms) (select (is_of h) runs)))
      × ((u : Time) × (h.latest_poll_at ≡ some u)
          × Any (λ r. (is_of h r ≡ true) × (r.started_at ≡ u)) runs
          × All (λ r. (is_of h r && earlier u r.started_at) ≡ false) runs)

  health_row-IsSound :
      (all : List PollRun) (key : Time × Text) (runs : List PollRun)
      → runs ≡ select (λ r. pair_eq.beq (health_group f r) key) all
      → 0 < length runs
      → IsSound all (health_row f (key, runs))
  unfolding health_row
  health_row-IsSound all key runs same some_run =
      let q = is_of (health_row f (key, runs)) in
      let (u, e, found, bound) = latest_of runs some_run in
      (
        some_run,
        ap length same ∙ length-select q all,
        ap (count_if (λ r. r.success)) same ∙ count_if-select (λ r. r.success) q all,
        ap (count_if (λ r. not r.success)) same ∙ count_if-select (λ r. not r.success) q all,
        ap (λ x. f.percentile (map (λ r. r.duration_ms) x)) same,
        (
          u,
          e,
          Any-of_select (λ r. r.started_at ≡ u) q all (subst (Any _) same found),
          All-imp (λ r h. unless (q r) _ h) all
              (All-of_select (λ r. earlier u r.started_at ≡ false) q all
                (subst (All _) same bound)),
        ),
      )

  -- Every row has a run of its bucket and lighthouse, and counts all of these, the successful and the
  -- failed; it has the percentile of their durations and the start of the latest of them. The polls
  -- of the rows add up to the runs, and the successful ones to the successful runs.
  pub poll_health_5m_lem :
      (t : Tables)
      → (total (λ h. h.polls) (poll_health_5m f t) ≡ length t.poll_runs)
        × (total (λ h. h.successful_polls) (poll_health_5m f t)
            ≡ count_if (λ r. r.success) t.poll_runs)
        × All (IsSound t.poll_runs) (poll_health_5m f t)
  unfolding poll_health_5m
  poll_health_5m_lem t =
      let groups = group_by (health_group f) t.poll_runs in
      (
        total-map (health_row f) (λ h. h.polls) groups
            ∙ total_eq _ _ groups (λ g. sym (count_all g.1))
            ∙ group_by-count (health_group f) (λ r. true) t.poll_runs
            ∙ count_all t.poll_runs,
        total-map (health_row f) (λ h. h.successful_polls) groups
            ∙ group_by-count (health_group f) (λ r. r.success) t.poll_runs,
        All-map (health_row f) (IsSound t.poll_runs) groups (
            All-imp
              (λ g (rows, some_run).
                health_row-IsSound t.poll_runs g.0 g.1 rows
                  (omega (arith, ap length rows, length-select _ t.poll_runs, some_run)))
              groups (group_by-rows (health_group f) t.poll_runs)),
      )
