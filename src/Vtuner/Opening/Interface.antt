-- ===== src/Vtuner/Opening/Interface.antt =====
-- The two interfaces of the drivers, and the one that `openVtuner` ends up with.
use mathlib.Core.List.{append_assoc}
use satip_client.Base.{
  ℕ, ◌+◌, ◌≤◌, ◌≡◌, refl, sym, ap, ◌∙◌, Bool, true, false, not, Bool-cases, inl, inr, if◌then◌else◌,
  Option, some, List, [], ◌∷◌, ◌++◌, arith,
}
use satip_client.Base.Text.{codes}
use satip_client.Config.State.{FeType}
use satip_client.Vtuner.Opening.{
  Payload, name_is, type_is, outputs_are, fe_info_is, delsys_is, Call, Answer, is_refused,
  is_unknown, Driver, Opening, no_offset, plus_offset, numbered, Build, fe_info_of, fe_type_text,
  delivery_systems, get_message, set_response, allocate_vtuner, ioctl, set_outputs, set_front_end,
  probe_name, open_found, open_vtuner, open_new,
}

-- The number of a call in an interface: from 11 on in the extended one, from 1 on in the legacy one.
abbrev pub in_interface : Bool → ℕ → ℕ
in_interface true n = n + 10
in_interface false n = n

-- A driver of one interface: it accepts the seven calls of this one, and does not know the number that
-- the name has in the other one.
pub record Speaks (driver : Driver) (extended : Bool) : Type 0 where
  pub accepts :
      (n : ℕ)
      → n ≤ 7
      → (calls : List Call) (p : Payload)
      → is_refused (driver calls (record { number = in_interface extended n; payload = p })) ≡ false
  pub unknown :
      (calls : List Call) (p : Payload)
      → is_unknown (driver calls (record { number = in_interface (not extended) 3; payload = p }))
        ≡ true

abbrev call_of : Bool → ℕ → Payload → Call
call_of extended n p = record { number = in_interface extended n; payload = p }

-- What the driver is told after the name, the last call first.
abbrev pub told_after : Bool → Bool → FeType → List Call
told_after extended has_delsys t =
    let before =
      call_of extended 6 (fe_info_is (fe_info_of t))
      ∷ call_of extended 4 (type_is (fe_type_text t))
      ∷ [] in
    call_of extended 5 (outputs_are (codes "no"))
    ∷ (if has_delsys then call_of extended 7 (delsys_is (delivery_systems t)) ∷ before else before)

-- All that the driver is told of a front end.
abbrev pub announced : Bool → Bool → FeType → List Call
announced extended has_delsys t =
    told_after extended has_delsys t ++ call_of extended 3 (name_is (fe_info_of t).name) ∷ []

-- The call that asks in the interface that the build prefers, if the driver does not speak it.
abbrev pub probed : Bool → Bool → FeType → List Call
probed true true t = []
probed false false t = []
probed extended preferred t = call_of preferred 3 (name_is (fe_info_of t).name) ∷ []

accepted_known : (a : Answer) → is_refused a ≡ false → is_unknown a ≡ false
accepted_known a h = ground (arith, h)

module _ (driver : Driver) (extended : Bool) (build : Build) (s : Speaks driver extended) where
  -- The offset makes the numbers of the build those of the driver.
  Agrees : Opening → Type 0
  Agrees o = (n : ℕ) → plus_offset (numbered build n) o.offset ≡ in_interface extended n

  set_front_end-told :
      (t : FeType) (o : Opening)
      → Agrees o
      → set_front_end driver build t o
        ≡ (record o { calls = told_after extended build.has_delsys t ++ o.calls }, true)
  unfolding set_front_end set_outputs ioctl Agrees
  set_front_end-told t o h = elim (Bool-cases build.has_delsys) [
    | inl e ↦ rw (e, h 4, h 5, h 6, h 7, s.accepts 4 (omega arith), s.accepts 6 (omega arith)) refl
    | inr e ↦ rw (e, h 4, h 5, h 6, s.accepts 4 (omega arith), s.accepts 6 (omega arith)) refl
  ]

abbrev fresh : ℕ → Opening
fresh fd = record { fd = some fd; offset = no_offset; calls = []; closed_fds = [] }

-- What the call of the name leaves: the name is accepted, and the offset fits the driver.
record IsNamed (driver : Driver) (extended : Bool) (build : Build) (t : FeType)
    (r : Opening × Answer) : Type 0 where
  known : is_refused r.1 ≡ false
  agrees : (s : Speaks driver extended) → Agrees driver extended build s r.0
  told :
      r.0.calls
      ≡ call_of extended 3 (name_is (fe_info_of t).name) ∷ probed extended build.high_numbers t

probe_name-IsNamed :
    (extended b d : Bool) (driver : Driver) (t : FeType) (fd : ℕ)
    → Speaks driver extended
    → let build : Build = record { high_numbers = b; has_delsys = d } in
      IsNamed driver extended build t (probe_name driver build t (fresh fd))
unfolding probe_name ioctl Agrees
probe_name-IsNamed true true d driver t fd s =
    rw (accepted_known _ (s.accepts 3 (omega arith) [] (name_is (fe_info_of t).name))) (record {
      known = s.accepts 3 (omega arith) _ (name_is (fe_info_of t).name);
      agrees = λ s n. refl;
      told = refl;
    })
probe_name-IsNamed false false d driver t fd s =
    rw (accepted_known _ (s.accepts 3 (omega arith) [] (name_is (fe_info_of t).name))) (record {
      known = s.accepts 3 (omega arith) _ (name_is (fe_info_of t).name);
      agrees = λ s n. refl;
      told = refl;
    })
probe_name-IsNamed true false d driver t fd s = rw s.unknown (record {
  known = s.accepts 3 (omega arith) _ (name_is (fe_info_of t).name);
  agrees = λ s n. refl;
  told = refl;
})
probe_name-IsNamed false true d driver t fd s = rw s.unknown (record {
  known = s.accepts 3 (omega arith) _ (name_is (fe_info_of t).name);
  agrees = λ s n. omega arith;
  told = refl;
})

-- Whichever interface the build prefers, a tuner whose driver speaks one of the two is opened in that
-- one: the front end's name, type, parameters, delivery systems and outputs are told by its numbers,
-- in this order, after at most one call in the other interface; messages are read and answered by
-- its numbers from then on.
pub open_new-Speaks :
    (driver : Driver) (extended : Bool) (build : Build) (nodes : List (Option ℕ)) (fd : ℕ)
    (t : FeType)
    → Speaks driver extended
    → allocate_vtuner nodes ≡ some fd
    → let (o, ok) = open_new driver build nodes (some t) in
      (ok ≡ true)
      × (o.calls ≡ announced extended build.has_delsys t ++ probed extended build.high_numbers t)
      × (plus_offset (get_message build) o.offset ≡ in_interface extended 1)
      × (plus_offset (set_response build) o.offset ≡ in_interface extended 2)
unfolding open_new open_vtuner open_found
open_new-Speaks driver extended build nodes fd t s e =
    let named = probe_name-IsNamed extended build.high_numbers build.has_delsys driver t fd s in
    let (o, answer) = probe_name driver build t (fresh fd) in
    let name : List Call = call_of extended 3 (name_is (fe_info_of t).name) ∷ [] in
    rw (e, named.known, set_front_end-told driver extended build s t o (named.agrees s))
      (
        refl,
        ap (λ (l : List Call). told_after extended build.has_delsys t ++ l) named.told
            ∙ sym (
                append_assoc (told_after extended build.has_delsys t) name
                  (probed extended build.high_numbers t)),
        unfold Agrees in named.agrees s 1,
        unfold Agrees in named.agrees s 2,
      )
