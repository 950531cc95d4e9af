-- ===== src/HttpServer/Lifecycle.antt =====
-- The two goroutines of Start in internal/httpserver/server.go: one listens and serves until that ends,
-- the other shuts the server down at the end of the context. Of the log the two errors are kept. What
-- ListenAndServe and Shutdown return is the environment's choice, with what net/http says of it:
-- ErrServerClosed comes only behind a call of Shutdown.
use nebula_mnemosina.Prelude.{
  Bool, true, false, List, [], ◌∷◌, ◌++◌, Option, none, some, ◌≡◌, ◌⊎◌, inl, inr, refl, ap, ◌∙◌,
  append-nil, arith,
}
use nebula_mnemosina.Errors.{Error}

-- What ListenAndServe returns; it never returns nil.
pub data ServeEnd : Type 0 where
  server_closed : ServeEnd
  failed : Error → ServeEnd

pub data Report : Type 0 where
  server_failed shutdown_failed : Error → Report

pub data Listener : Type 0 where
  serving : Listener
  ended : ServeEnd → Listener

-- Before `<-ctx.Done()`, in Shutdown, and behind it.
pub data Closer : Type 0 where
  waiting draining : Closer
  finished : Option Error → Closer

pub record Server : Type 0 where
  pub context_done : Bool
  pub listener : Listener
  pub closer : Closer
  pub reports : List Report

-- `if err != nil && err != http.ErrServerClosed { … }`
unfoldable pub serve_report : ServeEnd → List Report
serve_report server_closed = []
serve_report (failed e) = server_failed e ∷ []

-- `if err := server.Shutdown(shutdownCtx); err != nil { … }`
unfoldable pub shutdown_report : Option Error → List Report
shutdown_report none = []
shutdown_report (some e) = shutdown_failed e ∷ []

unfoldable pub new_server : Server
new_server = record { context_done = false; listener = serving; closer = waiting; reports = [] }

-- Shutdown has been called.
abbrev pub closing : Closer → Bool
closing waiting = false
closing draining = true
closing (finished e) = true

abbrev pub may_end : Closer → ServeEnd → Bool
may_end c server_closed = closing c
may_end c (failed e) = true

pub data Transition (s : Server) : Server → Type 0 where
  cancel : Transition s (record s { context_done = true })
  serve_ends :
      (r : ServeEnd)
      → s.listener ≡ serving
      → may_end s.closer r ≡ true
      → Transition s (record s { listener = ended r; reports = s.reports ++ serve_report r })
  begin_shutdown :
      s.closer ≡ waiting → s.context_done ≡ true → Transition s (record s { closer = draining })
  end_shutdown :
      (e : Option Error)
      → s.closer ≡ draining
      → Transition s (record s { closer = finished e; reports = s.reports ++ shutdown_report e })

pub data Lifetime (s : Server) : Server → Type 0 where
  here : Lifetime s s
  next : {t u : Server} → Lifetime s t → Transition t u → Lifetime s u

-- A listener that failed, and no other, is reported.
abbrev pub listener_reports : Listener → List Report
listener_reports (ended (failed e)) = server_failed e ∷ []
listener_reports _ = []

-- A Shutdown that returned an error, and no other, is reported.
abbrev pub closer_reports : Closer → List Report
closer_reports (finished (some e)) = shutdown_failed e ∷ []
closer_reports _ = []

serve_report_lem : (r : ServeEnd) → serve_report r ≡ listener_reports (ended r)
unfolding serve_report
serve_report_lem server_closed = refl
serve_report_lem (failed e) = refl

shutdown_report_lem : (e : Option Error) → shutdown_report e ≡ closer_reports (finished e)
unfolding shutdown_report
shutdown_report_lem none = refl
shutdown_report_lem (some e) = refl

-- The reports are those of the two goroutines, in either order.
abbrev pub IsReported : Server → Type 0
IsReported s =
    (s.reports ≡ listener_reports s.listener ++ closer_reports s.closer)
    ⊎ (s.reports ≡ closer_reports s.closer ++ listener_reports s.listener)

-- Shutdown only behind the end of the context, and a listener that was closed only behind Shutdown.
abbrev pub IsOrderly : Server → Type 0
IsOrderly s =
    ((closing s.closer ≡ false) ⊎ (s.context_done ≡ true))
    × ((s.listener ≡ serving)
        ⊎ ((s.listener ≡ ended server_closed) × (closing s.closer ≡ true))
        ⊎ ((e : Error) × (s.listener ≡ ended (failed e))))

-- A listener that ended did so as before, once Shutdown has been called.
abbrev HasEnded : Listener → Bool → Type 0
HasEnded l closed =
    (l ≡ serving)
    ⊎ ((l ≡ ended server_closed) × (closed ≡ true))
    ⊎ ((e : Error) × (l ≡ ended (failed e)))

still_ended : (l : Listener) (closed : Bool) → HasEnded l closed → HasEnded l true
still_ended l closed (inl h) = inl h
still_ended l closed (inr (inl (h, k))) = inr (inl (h, refl))
still_ended l closed (inr (inr h)) = inr (inr h)

Transition-IsOrderly : {s t : Server} → Transition s t → IsOrderly s → IsOrderly t
Transition-IsOrderly {s} cancel (a, b) = (inr refl, b)
Transition-IsOrderly {s} (serve_ends server_closed l m) (a, b) = (a, inr (inl (refl, m)))
Transition-IsOrderly {s} (serve_ends (failed e) l m) (a, b) = (a, inr (inr (e, refl)))
Transition-IsOrderly {s} (begin_shutdown w c) (a, b) =
    (inr c, still_ended s.listener (closing s.closer) b)
Transition-IsOrderly {s} (end_shutdown e w) (inl open', b) = absurd (ground (arith, w, open'))
Transition-IsOrderly {s} (end_shutdown e w) (inr c, b) =
    (inr c, still_ended s.listener (closing s.closer) b)

-- Where one goroutine has reported nothing, the reports are those of the other.
only_left : (xs ys zs : List Report) → ys ≡ [] → (zs ≡ xs ++ ys) ⊎ (zs ≡ ys ++ xs) → zs ≡ xs
only_left xs ys zs e (inl h) = h ∙ ap (λ y. xs ++ y) e ∙ append-nil xs
only_left xs ys zs e (inr h) = h ∙ ap (λ y. y ++ xs) e

swap : {A B : Type 0} → A ⊎ B → B ⊎ A
swap (inl a) = inr a
swap (inr b) = inl b

Transition-IsReported : {s t : Server} → Transition s t → IsReported s → IsReported t
Transition-IsReported {s} cancel h = h
Transition-IsReported {s} (serve_ends r l m) h =
    let before =
      only_left (closer_reports s.closer) (listener_reports s.listener) s.reports
        (ap listener_reports l) (swap h) in
    inr (
      ap (λ x. x ++ serve_report r) before
      ∙ ap (λ y. closer_reports s.closer ++ y) (serve_report_lem r))
Transition-IsReported {s} (begin_shutdown w c) h =
    let before =
      only_left (listener_reports s.listener) (closer_reports s.closer) s.reports
        (ap closer_reports w) h in
    inr before
Transition-IsReported {s} (end_shutdown e w) h =
    let before =
      only_left (listener_reports s.listener) (closer_reports s.closer) s.reports
        (ap closer_reports w) h in
    inl (
      ap (λ x. x ++ shutdown_report e) before
      ∙ ap (λ y. listener_reports s.listener ++ y) (shutdown_report_lem e))

-- In every state of the server, Shutdown was called only behind the end of the context, and the
-- listener serves, was closed by that call, or failed; and the errors that were reported are exactly
-- those of the listener, unless it was closed, and of Shutdown, each once.
pub Lifetime-IsOrderly : {s : Server} → Lifetime new_server s → IsOrderly s × IsReported s
unfolding new_server
Lifetime-IsOrderly here = ((inl refl, inl refl), inl refl)
Lifetime-IsOrderly (next before step) =
    let (orderly, reported) = Lifetime-IsOrderly before in
    (Transition-IsOrderly step orderly, Transition-IsReported step reported)
