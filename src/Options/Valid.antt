-- ===== src/Options/Valid.antt =====
-- What the settings hold, whatever the file says.
use satip_client.Base.{
  ℕ, ◌≤◌, ◌≡◌, refl, sym, ap, subst, true, false, ◌&&◌, ltb, leb, if-both, Option, none, some, List,
  [], ◌∷◌, arith, Bool-cases, inl, inr,
}
use satip_client.Base.Text.{Text, codes}
use satip_client.Base.Sets.{insert, contains, contains-insert, IsOrdered, insert-IsOrdered}
use satip_client.Base.Int.{ℤ, pos, negsuc}
use satip_client.Options.{
  NumberReaders, VtunerOpt, new_opt, text_eq, is_no_text, split, tuner_type_of, caid_of, add_caids,
  set_attr, set_parts, set_items, Settings, is_less, change_at, load_parts, load_line, load_lines,
  load,
}

-- The CAIDs are an ordered set of 16-bit numbers other than 0.
pub record IsCaids (caids : List ℕ) : Type 0 where
  pub ordered : IsOrdered caids
  pub bounds : (x : ℕ) → contains x caids ≡ true → (1 ≤ x) × (x ≤ 65535)

-- A front end is one of the three.
abbrev pub IsFrontend : Option ℕ → Type 0
IsFrontend none = Unit {0}
IsFrontend (some n) = n ≤ 2

pub record IsOpt (o : VtunerOpt) : Type 0 where
  pub caids : IsCaids o.ca_caids
  pub fe_type : IsFrontend o.fe_type

-- The keys rise from one on, and the settings are valid.
abbrev pub Above : Option ℤ → ℤ → Type 0
Above none k = Unit {0}
Above (some b) k = is_less b k ≡ true

pub data IsSettings : Option ℤ → Settings → Type 0 where
  no_settings : {b : Option ℤ} → IsSettings b []
  more_settings :
      {b : Option ℤ} (k : ℤ) (o : VtunerOpt) (m : Settings)
      → Above b k
      → IsOpt o
      → IsSettings (some k) m
      → IsSettings b ((k, o) ∷ m)

insert-IsCaids :
    (x : ℕ) (caids : List ℕ) → 1 ≤ x → x ≤ 65535 → IsCaids caids → IsCaids (insert x caids)
insert-IsCaids x caids low high v = record {
  ordered = insert-IsOrdered x caids v.ordered;
  bounds = λ y h. ground (arith, contains-insert y x caids, v.bounds y);
}

caid-IsCaids :
    (z : ℤ) (caids : List ℕ)
    → IsCaids caids
    → IsCaids (elim (caid_of z) [ none ↦ caids | some caid ↦ insert caid caids ])
caid-IsCaids (negsuc n) caids v = v
caid-IsCaids (pos n) caids v = elim (Bool-cases (ltb 0 n && leb n 65535)) [
  | inl e ↦ rw e (insert-IsCaids n caids (ground (arith, e)) (ground (arith, e)) v)
  | inr e ↦ rw e v
]

tuner_type_of-le : (name : Text) → tuner_type_of name ≤ 2
unfolding tuner_type_of
tuner_type_of-le name =
    if-both (λ n. n ≤ 2) (text_eq name (codes "DVB-S")) _ _ (omega arith)
      (if-both (λ n. n ≤ 2) (text_eq name (codes "DVB-C")) _ _ (omega arith)
        (if-both (λ n. n ≤ 2) (text_eq name (codes "DVB-T")) _ _ (omega arith) (omega arith)))

same-IsOpt : (o p : VtunerOpt) → p.ca_caids ≡ o.ca_caids → p.fe_type ≡ o.fe_type → IsOpt o → IsOpt p
same-IsOpt o p c f v = record {
  caids = subst IsCaids (sym c) v.caids;
  fe_type = subst IsFrontend (sym f) v.fe_type;
}

module _ (readers : NumberReaders) where
  add_caids-IsCaids :
      (ts : List Text) (caids : List ℕ) → IsCaids caids → IsCaids (add_caids readers ts caids)
  unfolding add_caids
  add_caids-IsCaids [] caids v = v
  add_caids-IsCaids (t ∷ ts) caids v =
      add_caids-IsCaids ts _
        (if-both IsCaids (is_no_text t) _ _ v (caid-IsCaids (readers.strtol16 t) caids v))

  set_attr-IsOpt :
      (name value : Text) (o : VtunerOpt) → IsOpt o → IsOpt (set_attr readers name value o)
  unfolding set_attr
  set_attr-IsOpt name value o v =
      if-both IsOpt (text_eq name (codes "vtuner_type")) _ _ (same-IsOpt o _ refl refl v) (
        if-both IsOpt (text_eq name (codes "ipaddr")) _ _ (same-IsOpt o _ refl refl v) (
          if-both IsOpt (text_eq name (codes "tcpdata") && text_eq value (codes "1")) _ _
            (same-IsOpt o _ refl refl v)
            (if-both IsOpt (text_eq name (codes "tuner_type")) _ _
              (record { caids = v.caids; fe_type = tuner_type_of-le value })
              (if-both IsOpt (text_eq name (codes "force_plts") && text_eq value (codes "1")) _ _
                (same-IsOpt o _ refl refl v)
                (if-both IsOpt (text_eq name (codes "fe")) _ _ (same-IsOpt o _ refl refl v) (
                  if-both IsOpt (text_eq name (codes "port")) _ _ (same-IsOpt o _ refl refl v) (
                    if-both IsOpt (text_eq name (codes "ca_pids")) _ _ (same-IsOpt o _ refl refl v)
                      (if-both IsOpt (text_eq name (codes "ca_emm")) _ _
                        (same-IsOpt o _ refl refl v)
                        (if-both IsOpt (text_eq name (codes "ca_caids")) _ _
                          (record {
                            caids = add_caids-IsCaids (split b';' value) o.ca_caids v.caids;
                            fe_type = v.fe_type;
                          })
                          v)))))))))

  set_parts-IsOpt :
      (parts : List Text) (o : VtunerOpt) → IsOpt o → IsOpt (set_parts readers parts o)
  unfolding set_parts
  set_parts-IsOpt [] o v = v
  set_parts-IsOpt (name ∷ []) o v = v
  set_parts-IsOpt (name ∷ value ∷ _) o v = set_attr-IsOpt name value o v

  set_items-IsOpt :
      (items : List Text) (o : VtunerOpt) → IsOpt o → IsOpt (set_items readers items o)
  unfolding set_items
  set_items-IsOpt [] o v = v
  set_items-IsOpt (item ∷ items) o v =
      set_items-IsOpt items _ (set_parts-IsOpt (split b':' item) o v)

new_opt-IsOpt : IsOpt new_opt
unfolding contains
new_opt-IsOpt = record { caids = record { ordered = tt; bounds = λ x h. cc }; fe_type = tt }

pub is_less_total : (a b : ℤ) → is_less a b ≡ false → is_less b a ≡ false → a ≡ b
is_less_total (pos m) (pos n) h k = ap pos (ground arith)
is_less_total (pos m) (negsuc n) h k = cc
is_less_total (negsuc m) (pos n) h k = cc
is_less_total (negsuc m) (negsuc n) h k = ap negsuc (ground arith)

change_at-IsSettings :
    (b : Option ℤ) (key : ℤ) (f : VtunerOpt → VtunerOpt) (m : Settings)
    → ((o : VtunerOpt) → IsOpt o → IsOpt (f o))
    → Above b key
    → IsSettings b m
    → IsSettings b (change_at key f m)
unfolding change_at
change_at-IsSettings b key f _ keeps above no_settings =
    more_settings key (f new_opt) [] above (keeps new_opt new_opt-IsOpt) no_settings
change_at-IsSettings b key f _ keeps above (more_settings k o m a v rest) =
    elim (Bool-cases (is_less key k)) [
      | inl less ↦ rw less (
          more_settings key (f new_opt) ((k, o) ∷ m) above (keeps new_opt new_opt-IsOpt)
            (more_settings k o m less v rest))
      | inr not_less ↦ elim (Bool-cases (is_less k key)) [
        | inl more ↦
            rw (not_less, more)
              (more_settings k o (change_at key f m) a v
                (change_at-IsSettings (some k) key f m keeps more rest))
        | inr same ↦
            rw (not_less, same)
              (more_settings key (f o) m above (keeps o v) (
                subst (λ (j : ℤ). IsSettings (some j) m) (sym (is_less_total key k not_less same))
                  rest))
      ]
    ]

module _ (readers : NumberReaders) where
  load_parts-IsSettings :
      (parts : List Text) (m : Settings)
      → IsSettings none m
      → IsSettings none (load_parts readers parts m)
  unfolding load_parts
  load_parts-IsSettings [] m v = v
  load_parts-IsSettings (index ∷ []) m v = v
  load_parts-IsSettings (index ∷ items ∷ []) m v =
      change_at-IsSettings none (readers.atoi index) (set_items readers (split b',' items)) m
        (set_items-IsOpt readers (split b',' items)) tt v
  load_parts-IsSettings (index ∷ items ∷ more ∷ rest) m v = v

  load_lines-IsSettings :
      (lines : List Text) (m : Settings)
      → IsSettings none m
      → IsSettings none (load_lines readers lines m)
  unfolding load_lines load_line
  load_lines-IsSettings [] m v = v
  load_lines-IsSettings (line ∷ lines) m v =
      load_lines-IsSettings lines (load_line readers line m)
        (load_parts-IsSettings (split b'=' line) m v)

  -- Whatever the configuration file holds, and if there is none, the settings come in rising order of
  -- their indices, each index once; every front end is unset or one of the three; and the CAIDs of
  -- each are an ordered set of numbers from 1 to 65535.
  pub load-IsSettings : (file : Option Text) → IsSettings none (load readers file)
  unfolding load
  load-IsSettings none = no_settings
  load-IsSettings (some text) = load_lines-IsSettings (split 10 text) [] no_settings
