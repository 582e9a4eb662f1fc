-- ===== src/Options/Keys.antt =====
-- What a line does to the settings of a file, looked up by their keys.
use satip_client.Base.{
  ◌≡◌, ◌≢◌, refl, ap, sym, ◌∙◌, subst, Bool, true, false, ◌==◌, if◌then◌else◌, Option, none, some,
  List, [], ◌∷◌, All, Bool-cases, inl, inr, arith,
}
use satip_client.Base.Int.{ℤ, pos, negsuc}
use satip_client.Base.Maps.{or_default}
use satip_client.Base.Text.{Text}
use satip_client.Options.{
  NumberReaders, VtunerOpt, new_opt, Settings, is_less, change_at, load_line,
}
use satip_client.Options.Lines.{Lacks, IsAttr, show_line, set_attrs, load_line-show_line}
use satip_client.Options.Fields.{IsSetTo, set_attrs-IsSetTo}
use satip_client.Options.Valid.{IsSettings, no_settings, more_settings, is_less_total}

abbrev pub same_key : ℤ → ℤ → Bool
same_key (pos m) (pos n) = m == n
same_key (negsuc m) (negsuc n) = m == n
same_key _ _ = false

-- The first setting of a key.
unfoldable pub find_opt : ℤ → Settings → Option VtunerOpt
find_opt key [] = none
find_opt key ((k, o) ∷ m) = let rest = find_opt key m in if same_key key k then some o else rest

same_self : (a : ℤ) → same_key a a ≡ true
same_self (pos m) = ground arith
same_self (negsuc m) = ground arith

same_sound : (a b : ℤ) → same_key a b ≡ true → a ≡ b
same_sound (pos m) (pos n) h = ap pos (ground (arith, h))
same_sound (pos m) (negsuc n) h = absurd (cc)
same_sound (negsuc m) (pos n) h = absurd (cc)
same_sound (negsuc m) (negsuc n) h = ap negsuc (ground (arith, h))

less_differs : (a b : ℤ) → is_less a b ≡ true → same_key a b ≡ false
less_differs (pos m) (pos n) h = ground (arith, h)
less_differs (pos m) (negsuc n) h = refl
less_differs (negsuc m) (pos n) h = refl
less_differs (negsuc m) (negsuc n) h = ground (arith, h)

more_differs : (a b : ℤ) → is_less b a ≡ true → same_key a b ≡ false
more_differs (pos m) (pos n) h = ground (arith, h)
more_differs (pos m) (negsuc n) h = refl
more_differs (negsuc m) (pos n) h = refl
more_differs (negsuc m) (negsuc n) h = ground (arith, h)

less_trans : (a b c : ℤ) → is_less a b ≡ true → is_less b c ≡ true → is_less a c ≡ true
less_trans (pos m) (pos n) (pos o) h k = ground (arith, h, k)
less_trans (pos m) (pos n) (negsuc o) h k = absurd (cc)
less_trans (pos m) (negsuc n) c h k = absurd (cc)
less_trans (negsuc m) (pos n) (pos o) h k = refl
less_trans (negsuc m) (pos n) (negsuc o) h k = absurd (cc)
less_trans (negsuc m) (negsuc n) (pos o) h k = refl
less_trans (negsuc m) (negsuc n) (negsuc o) h k = ground (arith, h, k)

-- A key below all keys is not there.
find_opt-above :
    (key b : ℤ) (m : Settings)
    → IsSettings (some b) m
    → is_less key b ≡ true
    → find_opt key m ≡ none
unfolding find_opt
find_opt-above key b _ no_settings h = refl
find_opt-above key b _ (more_settings k o m a v rest) h =
    let below = less_trans key b k h a in
    rw (less_differs key k below) (find_opt-above key k m rest below)

differs : (a b : ℤ) → a ≢ b → same_key a b ≡ false
differs a b h = elim (Bool-cases (same_key a b)) [
  | inl e ↦ absurd (h (same_sound a b e))
  | inr e ↦ e
]

-- The setting at the key is changed, or made.
find_opt-change_at :
    (b : Option ℤ) (key : ℤ) (f : VtunerOpt → VtunerOpt) (m : Settings)
    → IsSettings b m
    → find_opt key (change_at key f m) ≡ some (f (or_default new_opt (find_opt key m)))
unfolding find_opt change_at
find_opt-change_at b key f _ no_settings = rw (same_self key) refl
find_opt-change_at b key f _ (more_settings k o m a v rest) = elim (Bool-cases (is_less key k)) [
  | inl less ↦
      rw (less, same_self key, less_differs key k less, find_opt-above key k m rest less) refl
  | inr not_less ↦ elim (Bool-cases (is_less k key)) [
    | inl more ↦
        rw (not_less, more, more_differs key k more) (find_opt-change_at (some k) key f m rest)
    | inr same ↦
        let e : key ≡ k = is_less_total key k not_less same in
        let found : same_key key k ≡ true = subst (λ j. same_key key j ≡ true) e (same_self key) in
        rw (not_less, same, same_self key, found) refl
  ]
]

-- The settings at the other keys stay.
find_opt-change_at_other :
    (b : Option ℤ) (key other : ℤ) (f : VtunerOpt → VtunerOpt) (m : Settings)
    → IsSettings b m
    → other ≢ key
    → find_opt other (change_at key f m) ≡ find_opt other m
unfolding find_opt change_at
find_opt-change_at_other b key other f _ no_settings h = rw (differs other key h) refl
find_opt-change_at_other b key other f _ (more_settings k o m a v rest) h =
    elim (Bool-cases (is_less key k)) [
      | inl less ↦ rw (less, differs other key h) refl
      | inr not_less ↦ elim (Bool-cases (is_less k key)) [
        | inl more ↦
            rw (not_less, more)
              (ap (λ found. if same_key other k then some o else found)
                (find_opt-change_at_other (some k) key other f m rest h))
        | inr same ↦
            let e : key ≡ k = is_less_total key k not_less same in
            let no : same_key other k ≡ false = differs other k (λ s. h (s ∙ sym e)) in
            rw (not_less, same, differs other key h, no) refl
      ]
    ]

module _ (readers : NumberReaders) where
  -- A line with an index and at least one attribute, whose names and values hold none of the file's
  -- delimiters and whose values are not empty, on valid settings: the setting that is then found at
  -- its index has each member as the line's attributes of that member's name make it in turn, from
  -- the setting that was there, or from a new one; every other setting is found as before.
  pub load_line_sets :
      (index : Text) (a : Text × Text) (attrs : List (Text × Text)) (m : Settings)
      → Lacks b'=' index
      → All IsAttr (a ∷ attrs)
      → IsSettings none m
      → let key = readers.atoi index in
        let m' = load_line readers (show_line index (a ∷ attrs)) m in
        ((o : VtunerOpt) × (find_opt key m' ≡ some o)
          × IsSetTo readers (a ∷ attrs) (or_default new_opt (find_opt key m)) o)
        × ((other : ℤ) → other ≢ key → find_opt other m' ≡ find_opt other m)
  load_line_sets index a attrs m hi h v =
      let key = readers.atoi index in
      let before = or_default new_opt (find_opt key m) in
      let set = set_attrs readers (a ∷ attrs) in
      let line = load_line-show_line readers index a attrs m hi h in
      (
        (
          set before,
          ap (find_opt key) line ∙ find_opt-change_at none key set m v,
          set_attrs-IsSetTo readers (a ∷ attrs) before,
        ),
        λ other n. ap (find_opt other) line ∙ find_opt-change_at_other none key other set m v n,
      )
