-- ===== src/Options/Lines.antt =====
-- What a written line of the configuration file means to `load`.
use satip_client.Base.{ℕ, ◌≡◌, ◌≢◌, refl, sym, ap, ◌∙◌, List, [], ◌∷◌, ◌++◌, arith, fun_ext, All}
use mathlib.Core.List.{append_assoc, append-nil}
use satip_client.Base.Text.{Text}
use satip_client.Options.{
  NumberReaders, VtunerOpt, split_from, split, set_attr, set_parts, set_items, Settings, change_at,
  load_parts, load_line,
}

abbrev pub Lacks : ℕ → Text → Type 0
Lacks delim = All (λ c. c ≢ delim)

-- An attribute as a name and a value; the file has them with a colon between.
unfoldable pub show_attr : Text × Text → Text
show_attr (name, value) = name ++ b':' ∷ value

unfoldable pub show_rest : List (Text × Text) → Text
unfolding show_attr
show_rest [] = []
show_rest (a ∷ attrs) = b',' ∷ (show_attr a ++ show_rest attrs)

unfoldable pub show_attrs : List (Text × Text) → Text
unfolding show_attr show_rest
show_attrs [] = []
show_attrs (a ∷ attrs) = show_attr a ++ show_rest attrs

unfoldable show_each : List (Text × Text) → List Text
unfolding show_attr
show_each [] = []
show_each (a ∷ attrs) = show_attr a ∷ show_each attrs

unfoldable pub show_line : Text → List (Text × Text) → Text
unfolding show_attrs
show_line index attrs = index ++ b'=' ∷ show_attrs attrs

-- The attributes in turn.
unfoldable pub set_attrs : NumberReaders → List (Text × Text) → VtunerOpt → VtunerOpt
set_attrs readers [] o = o
set_attrs readers ((name, value) ∷ attrs) o =
    set_attrs readers attrs (set_attr readers name value o)

-- A name and a value that the file can hold: without its three delimiters, the value not empty.
pub record IsAttr (a : Text × Text) : Type 0 where
  pub name_colon : Lacks b':' a.0
  pub name_comma : Lacks b',' a.0
  pub name_equals : Lacks b'=' a.0
  pub value_colon : Lacks b':' a.1
  pub value_comma : Lacks b',' a.1
  pub value_equals : Lacks b'=' a.1
  pub value_there : a.1 ≢ []

split_from-append :
    (delim : ℕ) (p rest item : Text)
    → Lacks delim p
    → split_from delim item (p ++ rest) ≡ split_from delim (item ++ p) rest
unfolding split_from
split_from-append delim [] rest item h = rw append-nil
split_from-append delim (c ∷ p) rest item (hc, hp) =
    ground (arith, split_from-append delim p rest (item ++ c ∷ []) hp, append_assoc item (c ∷ []) p)

split_from-delim :
    (delim : ℕ) (item rest : Text)
    → split_from delim item (delim ∷ rest) ≡ item ∷ split_from delim [] rest
unfolding split_from
split_from-delim delim item rest = ground arith

split_from-end : (delim : ℕ) (item : Text) → item ≢ [] → split_from delim item [] ≡ item ∷ []
unfolding split_from
split_from-end delim [] h = absurd (h refl)
split_from-end delim (c ∷ item) h = refl

Lacks-append : (delim : ℕ) (s t : Text) → Lacks delim s → Lacks delim t → Lacks delim (s ++ t)
Lacks-append delim [] t h k = k
Lacks-append delim (c ∷ s) t (hc, hs) k = (hc, Lacks-append delim s t hs k)

-- Two parts with the delimiter between them.
split_pair :
    (delim : ℕ) (s t : Text)
    → Lacks delim s
    → Lacks delim t
    → t ≢ []
    → split delim (s ++ delim ∷ t) ≡ s ∷ t ∷ []
unfolding split
split_pair delim s t hs ht there =
    split_from-append delim s (delim ∷ t) [] hs
    ∙ (split_from-delim delim s t
        ∙ ap (λ parts. s ∷ parts)
            (ap (split_from delim []) (sym (append-nil t))
              ∙ (split_from-append delim t [] [] ht ∙ split_from-end delim t there)))

show_attr-Lacks :
    (delim : ℕ) (a : Text × Text)
    → delim ≢ b':'
    → Lacks delim a.0
    → Lacks delim a.1
    → Lacks delim (show_attr a)
unfolding show_attr
show_attr-Lacks delim (name, value) d h k =
    Lacks-append delim name (b':' ∷ value) h ((λ e. d (sym e)), k)

show_attr_there : (a : Text × Text) (rest : Text) → show_attr a ++ rest ≢ []
unfolding show_attr
show_attr_there ([], value) rest e = cc
show_attr_there (c ∷ name, value) rest e = cc

-- The items of a line, from one whose text is being read.
split-show_rest :
    (item : Text) (attrs : List (Text × Text))
    → item ≢ []
    → All IsAttr attrs
    → split_from b',' item (show_rest attrs) ≡ item ∷ show_each attrs
unfolding show_rest show_each
split-show_rest item [] there _ = split_from-end b',' item there
split-show_rest item (a ∷ attrs) there (ha, hs) =
    let lacks = show_attr-Lacks b',' a (λ e. omega arith) ha.name_comma ha.value_comma in
    let shown : show_attr a ≢ [] = λ e. show_attr_there a [] (append-nil (show_attr a) ∙ e) in
    split_from-delim b',' item (show_attr a ++ show_rest attrs)
    ∙ ap (λ items. item ∷ items)
        (split_from-append b',' (show_attr a) (show_rest attrs) [] lacks
          ∙ split-show_rest (show_attr a) attrs shown hs)

split-show_attrs :
    (a : Text × Text) (attrs : List (Text × Text))
    → All IsAttr (a ∷ attrs)
    → split b',' (show_attrs (a ∷ attrs)) ≡ show_each (a ∷ attrs)
unfolding split show_attrs show_each
split-show_attrs a attrs (ha, hs) =
    let lacks = show_attr-Lacks b',' a (λ e. omega arith) ha.name_comma ha.value_comma in
    let shown : show_attr a ≢ [] = λ e. show_attr_there a [] (append-nil (show_attr a) ∙ e) in
    split_from-append b',' (show_attr a) (show_rest attrs) [] lacks
    ∙ split-show_rest (show_attr a) attrs shown hs

show_rest-Lacks : (attrs : List (Text × Text)) → All IsAttr attrs → Lacks b'=' (show_rest attrs)
unfolding show_rest
show_rest-Lacks [] _ = tt
show_rest-Lacks (a ∷ attrs) (ha, hs) = (
  (λ e. omega arith),
  Lacks-append b'=' (show_attr a) (show_rest attrs)
      (show_attr-Lacks b'=' a (λ e. omega arith) ha.name_equals ha.value_equals)
      (show_rest-Lacks attrs hs),
)

module _ (readers : NumberReaders) where
  set_items-show :
      (attrs : List (Text × Text)) (o : VtunerOpt)
      → All IsAttr attrs
      → set_items readers (show_each attrs) o ≡ set_attrs readers attrs o
  unfolding set_items set_attrs show_each
  set_items-show [] o _ = refl
  set_items-show ((name, value) ∷ attrs) o (ha, hs) =
      ap (λ parts. set_items readers (show_each attrs) (set_parts readers parts o))
        (unfold show_attr in split_pair b':' name value ha.name_colon ha.value_colon ha.value_there)
      ∙ unfold set_parts in set_items-show attrs (set_attr readers name value o) hs

  -- What a written line makes of the settings.
  pub load_line-show_line :
      (index : Text) (a : Text × Text) (attrs : List (Text × Text)) (m : Settings)
      → Lacks b'=' index
      → All IsAttr (a ∷ attrs)
      → load_line readers (show_line index (a ∷ attrs)) m
        ≡ change_at (readers.atoi index) (set_attrs readers (a ∷ attrs)) m
  unfolding load_line show_line
  load_line-show_line index a attrs m hi h =
      let body = show_attrs (a ∷ attrs) in
      let lacks : Lacks b'=' body =
        unfold show_attrs in
        Lacks-append b'=' (show_attr a) (show_rest attrs)
          (show_attr-Lacks b'=' a (λ e. omega arith) h.0.name_equals h.0.value_equals)
          (show_rest-Lacks attrs h.1) in
      let there : body ≢ [] = unfold show_attrs in show_attr_there a (show_rest attrs) in
      ap (λ parts. load_parts readers parts m) (split_pair b'=' index body hi lacks there)
      ∙ unfold load_parts in
        ap (λ f. change_at (readers.atoi index) f m)
          (fun_ext (λ o.
            ap (λ items. set_items readers items o) (split-show_attrs a attrs h)
            ∙ set_items-show (a ∷ attrs) o h))
