-- ===== src/Vtuner/Opening/Outcome.antt =====
-- What `openVtuner` leaves open, and in which interface it speaks to the driver.
use satip_client.Base.{
  ℕ, ◌≡◌, ◌≢◌, refl, Bool, true, false, if-both, Bool-cases, inl, inr, Option, none, some, List, [],
  ◌∷◌, ◌++◌, All, ap,
}
use satip_client.Config.State.{FeType}
use satip_client.Vtuner.Opening.{
  type_is, fe_info_is, Answer, is_refused, Driver, Build, fe_info_of, fe_type_text, set_type,
  set_fe_info, Opening, allocate_vtuner, close_vtuner, ioctl, set_outputs, set_front_end,
  is_unknown, probe_name, open_found, open_vtuner, open_new,
}

-- The device is held and nothing was closed.
abbrev IsHeld : ℕ → Opening → Type 0
IsHeld fd o = (o.fd ≡ some fd) × (o.closed_fds ≡ [])

-- What is open, and what was closed, when `openVtuner` returns.
pub record IsOpened (found : Option ℕ) (r : Opening × Bool) : Type 0 where
  pub kept : r.1 ≡ true → (r.0.fd ≡ found) × (found ≢ none) × (r.0.closed_fds ≡ [])
  pub given_up :
      r.1 ≡ false
      → (r.0.fd ≡ none) × (r.0.closed_fds ≡ elim found [ none ↦ [] | some fd ↦ fd ∷ [] ])

-- The descriptor is that of the first device that opens: every device before it is one that does not.
-- Without one no device opens.
abbrev pub FirstOpens : List (Option ℕ) → Option ℕ → Type 0
FirstOpens nodes none = All (λ node. node ≡ none) nodes
FirstOpens nodes (some fd) =
    (before after : List (Option ℕ)) × (nodes ≡ before ++ some fd ∷ after)
    × All (λ node. node ≡ none) before

before-FirstOpens :
    (nodes : List (Option ℕ)) (found : Option ℕ)
    → FirstOpens nodes found
    → FirstOpens (none ∷ nodes) found
before-FirstOpens nodes none h = (refl, h)
before-FirstOpens nodes (some fd) (before, after, e, h) =
    (none ∷ before, after, ap (λ l. none ∷ l) e, (refl, h))

allocate_vtuner-FirstOpens : (nodes : List (Option ℕ)) → FirstOpens nodes (allocate_vtuner nodes)
unfolding allocate_vtuner
allocate_vtuner-FirstOpens [] = tt
allocate_vtuner-FirstOpens (none ∷ nodes) =
    before-FirstOpens nodes (allocate_vtuner nodes) (allocate_vtuner-FirstOpens nodes)
allocate_vtuner-FirstOpens (some fd ∷ nodes) = ([], nodes, refl, tt)

close_vtuner-IsOpened : (fd : ℕ) (o : Opening) → IsHeld fd o → IsOpened (some fd) (close_vtuner o)
unfolding close_vtuner
close_vtuner-IsOpened fd o (held, none_closed) =
    rw (held, none_closed) (record { kept = λ h. cc; given_up = λ h. (refl, refl) })

module _ (driver : Driver) (build : Build) where
  set_outputs-IsOpened :
      (fd : ℕ) (t : FeType) (o : Opening)
      → IsHeld fd o
      → IsOpened (some fd) (set_outputs driver build t o)
  unfolding set_outputs ioctl
  set_outputs-IsOpened fd t o (held, none_closed) = elim (Bool-cases build.has_delsys) [
    | inl e ↦ rw e (record { kept = λ h. (held, (λ n. cc), none_closed); given_up = λ h. cc })
    | inr e ↦ rw e (record { kept = λ h. (held, (λ n. cc), none_closed); given_up = λ h. cc })
  ]

  set_front_end-IsOpened :
      (fd : ℕ) (t : FeType) (o : Opening)
      → IsHeld fd o
      → IsOpened (some fd) (set_front_end driver build t o)
  unfolding set_front_end ioctl
  set_front_end-IsOpened fd t o h =
      let (typed, type_answer) = ioctl driver build (set_type build) (type_is (fe_type_text t)) o in
      let (told, info_answer) =
        ioctl driver build (set_fe_info build) (fe_info_is (fe_info_of t)) typed in
      if-both (IsOpened (some fd)) (is_refused type_answer) _ _ (close_vtuner-IsOpened fd typed h) (
        if-both (IsOpened (some fd)) (is_refused info_answer) _ _ (close_vtuner-IsOpened fd told h)
          (set_outputs-IsOpened fd t told h))

  probe_name-IsHeld :
      (fd : ℕ) (t : FeType) (o : Opening) → IsHeld fd o → IsHeld fd (probe_name driver build t o).0
  unfolding probe_name ioctl
  probe_name-IsHeld fd t o h =
      if-both (λ (r : Opening × Answer). IsHeld fd r.0) (is_unknown (driver o.calls _)) _ _ h h

  open_found-IsOpened :
      (found : Option ℕ) (fe_type : Option FeType) (o : Opening)
      → o.fd ≡ none
      → o.closed_fds ≡ []
      → IsOpened found (open_found driver build found fe_type o)
  unfolding open_found
  open_found-IsOpened none fe_type o h c =
      unfold close_vtuner in rw h (record { kept = λ h. cc; given_up = λ h. (refl, c) })
  open_found-IsOpened (some fd) none o h c =
      close_vtuner-IsOpened fd (record o { fd = some fd }) (refl, c)
  open_found-IsOpened (some fd) (some t) o h c =
      let start : Opening = record o { fd = some fd } in
      let (probed, answer) = probe_name driver build t start in
      let held = probe_name-IsHeld fd t start (refl, c) in
      if-both (IsOpened (some fd)) (is_refused answer) _ _ (close_vtuner-IsOpened fd probed held)
        (set_front_end-IsOpened fd t probed held)

  -- `openVtuner` on a new tuner tries the first device that opens, where every device before it does
  -- not open: either it succeeds with that device and closes nothing, or no device is left open, and
  -- the one that was opened, if any opens, was closed once.
  pub open_new-IsOpened :
      (nodes : List (Option ℕ)) (fe_type : Option FeType)
      → FirstOpens nodes (allocate_vtuner nodes)
        × IsOpened (allocate_vtuner nodes) (open_new driver build nodes fe_type)
  unfolding open_new open_vtuner
  open_new-IsOpened nodes fe_type = (
    allocate_vtuner-FirstOpens nodes,
    open_found-IsOpened (allocate_vtuner nodes) fe_type _ refl refl,
  )
