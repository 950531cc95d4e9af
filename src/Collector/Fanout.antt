-- ===== src/Collector/Fanout.antt =====
-- The goroutines of runRound in internal/collector/collector.go, up to `wg.Wait()`: each waits out
-- its jitter, polls its lighthouse and sends the result into a buffered channel. Any interleaving
-- of their ends is a sequence of steps.
use mathlib.Core.List.{Perm, perm_middle, perm_append_singleton, map-append}
use mathlib.Core.List.Perm
use nebula_mnemosina.Prelude.{
  ℕ, ◌+◌, ◌<◌, true, false, List, [], ◌∷◌, ◌++◌, append_assoc, append-nil, map, ◌≡◌, refl, ap,
  arith, length, length-append, ◌∙◌,
}
use nebula_mnemosina.Prelude.Int.{pos, ltb_ℤ}
use nebula_mnemosina.Model.{Lighthouse, PollResult}
use nebula_mnemosina.Config.{Config}

-- The goroutines that have not ended, by their lighthouse; what is in the channel, oldest first; and
-- the goroutines that returned without a result, since the context was done during the jitter.
pub record Workers : Type 0 where
  pub running : List Lighthouse
  pub sent : List PollResult
  pub gone : List Lighthouse

abbrev pub start : List Lighthouse → Workers
start targets = record { running = targets; sent = []; gone = [] }

-- One goroutine ends. A send waits until the channel, whose capacity is the number of targets, has
-- room; giving up happens only inside `if c.cfg.PollJitter > 0`.
pub data Step (cfg : Config) (w w' : Workers) : Type 0 where
  deliver :
      (before after : List Lighthouse) (l : Lighthouse) (r : PollResult)
      → w.running ≡ before ++ l ∷ after
      → r.lighthouse ≡ l
      → length w.sent < length cfg.lighthouse_targets
      → w' ≡ record { running = before ++ after; sent = w.sent ++ r ∷ []; gone = w.gone }
      → Step cfg w w'
  give_up :
      (before after : List Lighthouse) (l : Lighthouse)
      → ltb_ℤ (pos 0) cfg.cli.poll_jitter ≡ true
      → w.running ≡ before ++ l ∷ after
      → w' ≡ record { running = before ++ after; sent = w.sent; gone = l ∷ w.gone }
      → Step cfg w w'

pub data Reach (cfg : Config) (w : Workers) : Workers → Type 0 where
  here : Reach cfg w w
  next : {u v : Workers} → Reach cfg w u → Step cfg u v → Reach cfg w v

lighthouses_of : List PollResult → List Lighthouse
lighthouses_of = map (λ r. r.lighthouse)

-- Every target is still running, or gone, or has its result in the channel.
abbrev accounted : Workers → List Lighthouse
accounted w = w.running ++ (w.gone ++ lighthouses_of w.sent)

module _ {A : Type 0} (before after gone sent : List A) (l : A) where
  taken : Perm ((before ++ l ∷ after) ++ (gone ++ sent)) (l ∷ ((before ++ after) ++ (gone ++ sent)))
  taken =
      rw (append_assoc before (l ∷ after) (gone ++ sent), append_assoc before after (gone ++ sent))
        (perm_middle before (after ++ (gone ++ sent)))

  Perm-deliver :
      Perm
        ((before ++ after) ++ (gone ++ (sent ++ l ∷ [])))
        ((before ++ l ∷ after) ++ (gone ++ sent))
  Perm-deliver =
      Perm.trans
        (rw
          (
            ← append_assoc gone sent (l ∷ []),
            ← append_assoc (before ++ after) (gone ++ sent) (l ∷ []),
          )
          (perm_append_singleton l ((before ++ after) ++ (gone ++ sent))))
        (Perm.symm taken)

  Perm-give_up :
      Perm ((before ++ after) ++ (l ∷ gone ++ sent)) ((before ++ l ∷ after) ++ (gone ++ sent))
  Perm-give_up = Perm.trans (perm_middle (before ++ after) (gone ++ sent)) (Perm.symm taken)

lighthouses_of-append :
    (rs : List PollResult) (r : PollResult)
    → lighthouses_of (rs ++ r ∷ []) ≡ lighthouses_of rs ++ r.lighthouse ∷ []
unfolding lighthouses_of
lighthouses_of-append rs r = rw map-append

Step-accounted : {cfg : Config} {w w' : Workers} → Step cfg w w' → Perm (accounted w') (accounted w)
Step-accounted {w} {w'} (deliver before after l r split same room e) =
    rw (e, split, lighthouses_of-append w.sent r, same)
      (Perm-deliver before after w.gone (lighthouses_of w.sent) l)
Step-accounted {w} {w'} (give_up before after l jitter split e) =
    rw (e, split) (Perm-give_up before after w.gone (lighthouses_of w.sent) l)

abbrev size : Workers → ℕ
size w = length w.running + (length w.gone + length w.sent)

Step-size : {cfg : Config} {w w' : Workers} → Step cfg w w' → size w' ≡ size w
Step-size {w} {w'} (deliver before after l r split same room e) =
    rw (e, split)
      (omega (
        arith,
        length-append before after,
        length-append before (l ∷ after),
        length-append w.sent (r ∷ []),
      ))
Step-size {w} {w'} (give_up before after l jitter split e) =
    rw (e, split) (omega (arith, length-append before after, length-append before (l ∷ after)))

Reach-accounted :
    {cfg : Config} {w w' : Workers} → Reach cfg w w' → Perm (accounted w') (accounted w)
Reach-accounted here = Perm.refl _
Reach-accounted (next r st) = Perm.trans (Step-accounted st) (Reach-accounted r)

Reach-size : {cfg : Config} {w w' : Workers} → Reach cfg w w' → size w' ≡ size w
Reach-size here = refl
Reach-size (next r st) = Step-size st ∙ Reach-size r

-- No send ever waits: in every state that the goroutines can reach, one that is still running finds
-- room in the channel, whatever its result.
pub deliver_enabled :
    (cfg : Config) {w : Workers} (before after : List Lighthouse) (l : Lighthouse) (r : PollResult)
    → Reach cfg (start cfg.lighthouse_targets) w
    → w.running ≡ before ++ l ∷ after
    → r.lighthouse ≡ l
    → Step cfg w (record { running = before ++ after; sent = w.sent ++ r ∷ []; gone = w.gone })
deliver_enabled cfg {w} before after l r reach split same =
    deliver before after l r split same
      (omega (arith, Reach-size reach, ap length split, length-append before (l ∷ after))) refl

-- Once all goroutines have ended, every target has exactly one result in the channel or has given
-- up, and the order of the results is any.
pub finished-Perm :
    (cfg : Config) {w : Workers}
    → Reach cfg (start cfg.lighthouse_targets) w
    → w.running ≡ []
    → Perm (w.gone ++ map (λ r. r.lighthouse) w.sent) cfg.lighthouse_targets
unfolding lighthouses_of
finished-Perm cfg {w} reach done = rw append-nil at (rw done at (Reach-accounted reach))

-- With no jitter no goroutine gives up.
pub no_jitter-gone :
    (cfg : Config) {w : Workers}
    → Reach cfg (start cfg.lighthouse_targets) w
    → ltb_ℤ (pos 0) cfg.cli.poll_jitter ≡ false
    → w.gone ≡ []
no_jitter-gone cfg here off = refl
no_jitter-gone cfg (next r (deliver before after l res split same room e)) off =
    ground (arith, no_jitter-gone cfg r off)
no_jitter-gone cfg (next r (give_up before after l on split e)) off = absurd (ground arith)
