-- ===== src/Program/Ending.antt =====
-- The order of the end: every session is stopped before one is joined.
use mathlib.Core.List.{append-nil, append_assoc}
use satip_client.Base.{
  ℕ, ◌≡◌, refl, sym, ap, ◌∙◌, Bool, true, false, if-both, Option, none, some, List, [], ◌∷◌, ◌++◌,
}
use satip_client.Program.{
  Act, stop_called, join_called, Signal, Stage, at_block, at_handlers, at_start, at_test, at_wait,
  suspended, stopping, joining, returned, killed, MainState, sigint_handler, arrive, after_handler,
  deliver, is_set, main_at, main_step, new_program, signal_comes, signal_taken, main_goes_on, Runs,
  at_first, and_then,
}

unfoldable pub stops : List ℕ → List Act
stops [] = []
stops (i ∷ sessions) = stop_called i ∷ stops sessions

unfoldable pub joins : List ℕ → List Act
joins [] = []
joins (i ∷ sessions) = join_called i ∷ joins sessions

-- What has been called of the sessions at a place of `main`; if it is killed, how far it was.
abbrev pub CalledAt : Stage → List ℕ → List Act → Type 0
CalledAt (stopping rest) sessions acts = acts ++ stops rest ≡ stops sessions
CalledAt (joining rest) sessions acts = acts ++ joins rest ≡ stops sessions ++ joins sessions
CalledAt returned sessions acts = acts ≡ stops sessions ++ joins sessions
CalledAt killed sessions acts =
    (rest : List Act) × (acts ++ rest ≡ stops sessions ++ joins sessions)
CalledAt at_test sessions acts = acts ≡ []
CalledAt at_wait sessions acts = acts ≡ []
CalledAt (suspended handled) sessions acts = acts ≡ []
CalledAt _ sessions acts = (acts ≡ []) × (sessions ≡ [])

abbrev IsOrdered : MainState → Type 0
IsOrdered p = CalledAt p.stage p.sessions p.acts

main_at-CalledAt :
    (stage : Stage) (prev_mask : Bool) (started : Option (List ℕ)) (p : MainState)
    → p.stage ≡ stage
    → CalledAt stage p.sessions p.acts
    → IsOrdered (main_at stage prev_mask started p)
unfolding main_at stops joins
main_at-CalledAt at_block b started p e v = v
main_at-CalledAt at_handlers b started p e v = v
main_at-CalledAt at_start b none p e (none_called, none_started) =
    rw (none_called, none_started) refl
main_at-CalledAt at_start b (some sessions) p e v = v.0
main_at-CalledAt at_test b started p e v =
    if-both IsOrdered (is_set p.shutdown_signo) _ _ (rw v refl) v
main_at-CalledAt at_wait b started p e v = v
main_at-CalledAt (suspended true) b started p e v = v
main_at-CalledAt (suspended false) b started p e v = rw e v
main_at-CalledAt (stopping (i ∷ rest)) b started p e v =
    append_assoc p.acts (stop_called i ∷ []) (stops rest) ∙ v
main_at-CalledAt (stopping []) b started p e v =
    ap (λ (l : List Act). l ++ joins p.sessions) (sym (append-nil p.acts) ∙ v)
main_at-CalledAt (joining (i ∷ rest)) b started p e v =
    append_assoc p.acts (join_called i ∷ []) (joins rest) ∙ v
main_at-CalledAt (joining []) b started p e v = sym (append-nil p.acts) ∙ v
main_at-CalledAt returned b started p e v = rw e v
main_at-CalledAt killed b started p e v = rw e v

-- Nothing else is called when a handler runs.
handler-CalledAt :
    (stage : Stage) (sessions : List ℕ) (acts : List Act)
    → CalledAt stage sessions acts
    → CalledAt (after_handler stage) sessions acts
handler-CalledAt (suspended handled) sessions acts v = v
handler-CalledAt at_block sessions acts v = v
handler-CalledAt at_handlers sessions acts v = v
handler-CalledAt at_start sessions acts v = v
handler-CalledAt at_test sessions acts v = v
handler-CalledAt at_wait sessions acts v = v
handler-CalledAt (stopping rest) sessions acts v = v
handler-CalledAt (joining rest) sessions acts v = v
handler-CalledAt returned sessions acts v = v
handler-CalledAt killed sessions acts v = v

nothing_called : (sessions : List ℕ) (acts : List Act) → acts ≡ [] → CalledAt killed sessions acts
nothing_called sessions acts v =
    let all = stops sessions ++ joins sessions in (all, ap (λ (l : List Act). l ++ all) v)

-- A program that is killed had called a part of what it calls.
killed-CalledAt :
    (stage : Stage) (sessions : List ℕ) (acts : List Act)
    → CalledAt stage sessions acts
    → CalledAt killed sessions acts
killed-CalledAt (suspended handled) sessions acts v = nothing_called sessions acts v
killed-CalledAt at_block sessions acts v = nothing_called sessions acts v.0
killed-CalledAt at_handlers sessions acts v = nothing_called sessions acts v.0
killed-CalledAt at_start sessions acts v = nothing_called sessions acts v.0
killed-CalledAt at_test sessions acts v = nothing_called sessions acts v
killed-CalledAt at_wait sessions acts v = nothing_called sessions acts v
killed-CalledAt (stopping rest) sessions acts v = (
  stops rest ++ joins sessions,
  sym (append_assoc acts (stops rest) (joins sessions))
      ∙ ap (λ (l : List Act). l ++ joins sessions) v,
)
killed-CalledAt (joining rest) sessions acts v = (joins rest, v)
killed-CalledAt returned sessions acts v = ([], append-nil acts ∙ v)
killed-CalledAt killed sessions acts v = v

deliver-IsOrdered : (s : Signal) (p : MainState) → IsOrdered p → IsOrdered (deliver s p)
unfolding deliver sigint_handler
deliver-IsOrdered s p v =
    if-both IsOrdered (p.is_default s) _ _ (killed-CalledAt p.stage p.sessions p.acts v) (
      if-both IsOrdered (is_set p.shutdown_signo) _ _ (handler-CalledAt p.stage p.sessions p.acts v)
        (handler-CalledAt p.stage p.sessions p.acts v))

module _ (prev_mask : Bool) (started : Option (List ℕ)) where
  Runs-IsOrdered :
      (start p : MainState) → IsOrdered start → Runs prev_mask started start p → IsOrdered p
  unfolding main_step arrive
  Runs-IsOrdered start _ v at_first = v
  Runs-IsOrdered start _ v (and_then {p} r (signal_comes s)) = Runs-IsOrdered start p v r
  Runs-IsOrdered start _ v (and_then {p} r (signal_taken s h o)) =
      deliver-IsOrdered s p (Runs-IsOrdered start p v r)
  Runs-IsOrdered start _ v (and_then {p} r main_goes_on) =
      main_at-CalledAt p.stage prev_mask started p refl (Runs-IsOrdered start p v r)

  -- In every state that `main` reaches, whatever signals come and wherever they are taken: `stop` has
  -- been called of the sessions in their order, each once, before `join` is called of the first, and
  -- when `main` returns both have been called of all; a killed program has called a part of this.
  pub Runs-CalledAt :
      (p : MainState)
      → Runs prev_mask started (new_program prev_mask) p
      → CalledAt p.stage p.sessions p.acts
  Runs-CalledAt p r = Runs-IsOrdered (new_program prev_mask) p (refl, refl) r
