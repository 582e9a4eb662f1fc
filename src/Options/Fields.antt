-- ===== src/Options/Fields.antt =====
-- What the attributes of a line make of the members of `vtunerOpt`, each member by itself.
use satip_client.Base.{
  ◌≡◌, refl, ap, sym, ◌∙◌, subst, Bool, true, false, ◌||◌, if◌then◌else◌, some, List, [], ◌∷◌,
  Bool-cases, inl, inr, arith,
}
use satip_client.Base.Text.{Text, codes}
use satip_client.Options.{
  NumberReaders, VtunerOpt, text_eq, split, tuner_type_of, add_caids, set_attr,
}
use satip_client.Options.Lines.{set_attrs}

-- The attributes of a name, in turn; the others are passed over.
unfoldable pub each_named {ℓ} : {A : Type ℓ} → (Text → A → A) → Text → List (Text × Text) → A → A
unfolding text_eq
each_named update name [] old = old
each_named update name ((n, value) ∷ attrs) old =
    each_named update name attrs (if text_eq n name then update value old else old)

abbrev pub replaced : Text → Text → Text
replaced value old = value

abbrev pub switched_on : Text → Bool → Bool
switched_on value old = old || text_eq value (codes "1")

abbrev pub switched : Text → Bool → Bool
switched value old = text_eq value (codes "1")

-- Each member is what the attributes of its name make of it.
abbrev pub IsSetTo : NumberReaders → List (Text × Text) → VtunerOpt → VtunerOpt → Type 0
IsSetTo readers attrs o o' =
    (o'.vtuner_type ≡ each_named replaced (codes "vtuner_type") attrs o.vtuner_type)
    × (o'.ipaddr ≡ each_named replaced (codes "ipaddr") attrs o.ipaddr)
    × (o'.port ≡ each_named replaced (codes "port") attrs o.port)
    × (o'.fe_type
        ≡ each_named (λ value old. some (tuner_type_of value)) (codes "tuner_type") attrs o.fe_type)
    × (o'.fe_number ≡ each_named (λ value old. readers.atoi value) (codes "fe") attrs o.fe_number)
    × (o'.tcpdata ≡ each_named switched_on (codes "tcpdata") attrs o.tcpdata)
    × (o'.force_plts ≡ each_named switched_on (codes "force_plts") attrs o.force_plts)
    × (o'.ca_pids ≡ each_named switched (codes "ca_pids") attrs o.ca_pids)
    × (o'.ca_emm ≡ each_named switched (codes "ca_emm") attrs o.ca_emm)
    × (o'.ca_caids
        ≡ each_named (λ value old. add_caids readers (split b';' value) old) (codes "ca_caids")
            attrs o.ca_caids)

text_eq_same : (a b : Text) → text_eq a b ≡ true → a ≡ b
unfolding text_eq
text_eq_same [] [] h = refl
text_eq_same [] (_ ∷ _) h = absurd (cc)
text_eq_same (_ ∷ _) [] h = absurd (cc)
text_eq_same (a ∷ s) (b ∷ t) h =
    let e : a ≡ b = ground (arith, h) in
    let f : s ≡ t = text_eq_same s t (ground (arith, h)) in rw (e, f) refl

or_true : (b : Bool) → (b || true) ≡ true
or_true b = ground arith

or_false : (b : Bool) → (b || false) ≡ b
or_false b = ground arith

module _ (readers : NumberReaders) where
  -- An attribute by itself, where it does what it does under its name.
  abbrev SetBy : Text → VtunerOpt → Text → Type 0
  SetBy value o name = IsSetTo readers ((name, value) ∷ []) o (set_attr readers name value o)

  named :
      (name known value : Text) (o : VtunerOpt)
      → text_eq name known ≡ true
      → SetBy value o known
      → SetBy value o name
  named name known value o e v = subst (SetBy value o) (sym (text_eq_same name known e)) v

  -- One attribute changes the member of its name, and no other.
  set_attr-IsSetTo : (name value : Text) (o : VtunerOpt) → SetBy value o name
  unfolding set_attr each_named text_eq
  set_attr-IsSetTo name value o = elim (Bool-cases (text_eq name (codes "vtuner_type"))) [
    | inl e ↦
        named name (codes "vtuner_type") value o e
          (refl, refl, refl, refl, refl, refl, refl, refl, refl, refl)
    | inr e0 ↦ elim (Bool-cases (text_eq name (codes "ipaddr"))) [
      | inl e ↦
          named name (codes "ipaddr") value o e
            (refl, refl, refl, refl, refl, refl, refl, refl, refl, refl)
      | inr e1 ↦ elim (Bool-cases (text_eq name (codes "tcpdata"))) [
        | inl e ↦
            named name (codes "tcpdata") value o e (elim (Bool-cases (text_eq value (codes "1"))) [
              | inl one ↦
                  rw one (refl, refl, refl, refl, refl, sym (or_true _), refl, refl, refl, refl)
              | inr other ↦
                  rw other (refl, refl, refl, refl, refl, sym (or_false _), refl, refl, refl, refl)
            ])
        | inr e2 ↦ elim (Bool-cases (text_eq name (codes "tuner_type"))) [
          | inl e ↦
              named name (codes "tuner_type") value o e
                (refl, refl, refl, refl, refl, refl, refl, refl, refl, refl)
          | inr e3 ↦ elim (Bool-cases (text_eq name (codes "force_plts"))) [
            | inl e ↦
                named name (codes "force_plts") value o e
                  (elim (Bool-cases (text_eq value (codes "1"))) [
                    | inl one ↦
                        rw one
                          (refl, refl, refl, refl, refl, refl, sym (or_true _), refl, refl, refl)
                    | inr other ↦
                        rw other
                          (refl, refl, refl, refl, refl, refl, sym (or_false _), refl, refl, refl)
                  ])
            | inr e4 ↦ elim (Bool-cases (text_eq name (codes "fe"))) [
              | inl e ↦
                  named name (codes "fe") value o e
                    (refl, refl, refl, refl, refl, refl, refl, refl, refl, refl)
              | inr e5 ↦ elim (Bool-cases (text_eq name (codes "port"))) [
                | inl e ↦
                    named name (codes "port") value o e
                      (refl, refl, refl, refl, refl, refl, refl, refl, refl, refl)
                | inr e6 ↦ elim (Bool-cases (text_eq name (codes "ca_pids"))) [
                  | inl e ↦
                      named name (codes "ca_pids") value o e
                        (refl, refl, refl, refl, refl, refl, refl, refl, refl, refl)
                  | inr e7 ↦ elim (Bool-cases (text_eq name (codes "ca_emm"))) [
                    | inl e ↦
                        named name (codes "ca_emm") value o e
                          (refl, refl, refl, refl, refl, refl, refl, refl, refl, refl)
                    | inr e8 ↦ elim (Bool-cases (text_eq name (codes "ca_caids"))) [
                      | inl e ↦
                          named name (codes "ca_caids") value o e
                            (refl, refl, refl, refl, refl, refl, refl, refl, refl, refl)
                      | inr e9 ↦
                          rw (e0, e1, e2, e3, e4, e5, e6, e7, e8, e9)
                            (refl, refl, refl, refl, refl, refl, refl, refl, refl, refl)
                    ]
                  ]
                ]
              ]
            ]
          ]
        ]
      ]
    ]
  ]

  -- The attributes of a line, in turn.
  pub set_attrs-IsSetTo :
      (attrs : List (Text × Text)) (o : VtunerOpt)
      → IsSetTo readers attrs o (set_attrs readers attrs o)
  unfolding set_attrs each_named
  set_attrs-IsSetTo [] o = (refl, refl, refl, refl, refl, refl, refl, refl, refl, refl)
  set_attrs-IsSetTo ((name, value) ∷ attrs) o =
      let (a, b, c, d, e, f, g, h, i, j) = set_attr-IsSetTo name value o in
      let (a', b', c', d', e', f', g', h', i', j') =
        set_attrs-IsSetTo attrs (set_attr readers name value o) in
      (
        a' ∙ ap (each_named replaced (codes "vtuner_type") attrs) a,
        b' ∙ ap (each_named replaced (codes "ipaddr") attrs) b,
        c' ∙ ap (each_named replaced (codes "port") attrs) c,
        d' ∙ ap (each_named _ (codes "tuner_type") attrs) d,
        e' ∙ ap (each_named _ (codes "fe") attrs) e,
        f' ∙ ap (each_named switched_on (codes "tcpdata") attrs) f,
        g' ∙ ap (each_named switched_on (codes "force_plts") attrs) g,
        h' ∙ ap (each_named switched (codes "ca_pids") attrs) h,
        i' ∙ ap (each_named switched (codes "ca_emm") attrs) i,
        j' ∙ ap (each_named _ (codes "ca_caids") attrs) j,
      )
