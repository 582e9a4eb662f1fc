-- ===== src/Base/Sets.antt =====
-- `std::set<int>` of numbers that are not negative: a strictly rising list.
use satip_client.Base.Tests.{ltb, ◌==◌, if◌then◌else◌, ==_iff, Bool-cases}
use satip_client.Base.Lists.{take}
use Prim.Native.Nat.{ℕ, zero, suc, ◌≤◌, ◌<◌}
use mathlib.Core.Path.{◌≡◌, refl}
use mathlib.Core.Logic.{◌↔◌, inl, inr}
use mathlib.Core.Bool.{Bool, true, false, ◌&&◌, ◌||◌}
use mathlib.Core.List.{List, [], ◌∷◌}
use native.Mathlib.Omega.{arith}

-- `s.find(x) != s.end()`
unfoldable pub contains : ℕ → List ℕ → Bool
contains x [] = false
contains x (y ∷ s) = x == y || contains x s

-- `s.insert(x)`
unfoldable pub insert : ℕ → List ℕ → List ℕ
insert x [] = x ∷ []
insert x (y ∷ s) = if ltb x y then x ∷ y ∷ s else if x == y then y ∷ s else y ∷ insert x s

-- `s.insert(t.begin(), t.end())`
unfoldable pub insert_all : List ℕ → List ℕ → List ℕ
unfolding insert
insert_all [] s = s
insert_all (x ∷ t) s = insert_all t (insert x s)

-- `s == t`
unfoldable pub set_eq : List ℕ → List ℕ → Bool
set_eq [] [] = true
set_eq [] (y ∷ t) = false
set_eq (x ∷ s) [] = false
set_eq (x ∷ s) (y ∷ t) = x == y && set_eq s t

-- Every element of `s` passes the test; the loops that copy some elements of a set to another.
unfoldable pub keep_if : (ℕ → Bool) → List ℕ → List ℕ
keep_if p [] = []
keep_if p (x ∷ s) = let rest = keep_if p s in if p x then x ∷ rest else rest

-- Every element of the list lies above `b`, and the list rises.
abbrev pub Rises : ℕ → List ℕ → Type 0
Rises b [] = Unit {0}
Rises b (x ∷ s) = (b ≤ x) × Rises (suc x) s

abbrev pub IsOrdered : List ℕ → Type 0
IsOrdered s = Rises 0 s

Rises-mono : (a b : ℕ) (s : List ℕ) → a ≤ b → Rises b s → Rises a s
Rises-mono a b [] h r = tt
Rises-mono a b (x ∷ s) h r = (omega arith, r.1)

Rises-insert : (b x : ℕ) (s : List ℕ) → b ≤ x → Rises b s → Rises b (insert x s)
unfolding insert
Rises-insert b x [] h r = (h, tt)
Rises-insert b x (y ∷ s) h r = ground (arith, Rises-insert (suc y) x s)

pub insert-IsOrdered : (x : ℕ) (s : List ℕ) → IsOrdered s → IsOrdered (insert x s)
insert-IsOrdered x s h = Rises-insert 0 x s (omega arith) h

pub insert_all-IsOrdered : (t s : List ℕ) → IsOrdered s → IsOrdered (insert_all t s)
unfolding insert_all
insert_all-IsOrdered [] s h = h
insert_all-IsOrdered (x ∷ t) s h = insert_all-IsOrdered t (insert x s) (insert-IsOrdered x s h)

Rises-keep_if : (p : ℕ → Bool) (b : ℕ) (s : List ℕ) → Rises b s → Rises b (keep_if p s)
unfolding keep_if
Rises-keep_if p b [] h = tt
Rises-keep_if p b (x ∷ s) h =
    ground (arith, Rises-keep_if p (suc x) s h.1, Rises-mono b (suc x) (keep_if p s))

pub keep_if-IsOrdered : (p : ℕ → Bool) (s : List ℕ) → IsOrdered s → IsOrdered (keep_if p s)
keep_if-IsOrdered p s h = Rises-keep_if p 0 s h

pub contains-insert : (x y : ℕ) (s : List ℕ) → contains x (insert y s) ≡ (x == y || contains x s)
unfolding contains insert
contains-insert x y [] = refl
contains-insert x y (z ∷ s) = ground (arith, contains-insert x y s)

pub contains-insert_all :
    (x : ℕ) (t s : List ℕ) → contains x (insert_all t s) ≡ (contains x t || contains x s)
unfolding contains insert_all
contains-insert_all x [] s = refl
contains-insert_all x (y ∷ t) s =
    ground (arith, contains-insert_all x t (insert y s), contains-insert x y s)

pub contains-keep_if :
    (p : ℕ → Bool) (x : ℕ) (s : List ℕ) → contains x (keep_if p s) ≡ (contains x s && p x)
unfolding contains keep_if
contains-keep_if p x [] = refl
contains-keep_if p x (y ∷ s) = elim (Bool-cases (x == y)) [
  | inl e ↦ rw ((==_iff x y).0 e) (ground (arith, contains-keep_if p y s))
  | inr n ↦ ground (arith, contains-keep_if p x s)
]

pub set_eq_iff : (s t : List ℕ) → (set_eq s t ≡ true) ↔ (s ≡ t)
unfolding set_eq
set_eq_iff [] [] = (λ h. refl, λ h. refl)
set_eq_iff [] (y ∷ t) = (λ h. cc, λ h. cc)
set_eq_iff (x ∷ s) [] = (λ h. cc, λ h. cc)
set_eq_iff (x ∷ s) (y ∷ t) = ground (arith, set_eq_iff s t)

pub contains-lt : (b x : ℕ) (s : List ℕ) → Rises b s → x < b → contains x s ≡ false
unfolding contains
contains-lt b x [] r h = refl
contains-lt b x (y ∷ s) r h = ground (arith, contains-lt (suc y) x s r.1)

-- Ordered lists with the same elements are equal: the order is a normal form of the set.
Rises-ext :
    (b c : ℕ) (s t : List ℕ)
    → Rises b s
    → Rises c t
    → ((x : ℕ) → contains x s ≡ contains x t)
    → s ≡ t
unfolding contains
Rises-ext b c [] [] r q e = refl
Rises-ext b c [] (y ∷ t) r q e = ground (arith, e y)
Rises-ext b c (x ∷ s) [] r q e = ground (arith, e x)
Rises-ext b c (x ∷ s) (y ∷ t) r q e =
    let same : x ≡ y =
      ground (arith, e x, e y, contains-lt (suc y) x t q.1, contains-lt (suc x) y s r.1) in
    let tails : (z : ℕ) → contains z s ≡ contains z t =
      λ z. ground (arith, same, e z, contains-lt (suc x) z s r.1, contains-lt (suc y) z t q.1) in
    ground (arith, same, Rises-ext (suc x) (suc y) s t r.1 q.1 tails)

pub IsOrdered-ext :
    (s t : List ℕ) → IsOrdered s → IsOrdered t → ((x : ℕ) → contains x s ≡ contains x t) → s ≡ t
IsOrdered-ext s t = Rises-ext 0 0 s t

Rises-take : (n b : ℕ) (s : List ℕ) → Rises b s → Rises b (take n s)
Rises-take zero b s h = tt
Rises-take (suc n) b [] h = tt
Rises-take (suc n) b (x ∷ s) h = (h.0, Rises-take n (suc x) s h.1)

pub take-IsOrdered : (n : ℕ) (s : List ℕ) → IsOrdered s → IsOrdered (take n s)
take-IsOrdered n s h = Rises-take n 0 s h

pub contains-take : (n x : ℕ) (s : List ℕ) → contains x (take n s) ≡ true → contains x s ≡ true
unfolding contains
contains-take zero x s h = cc
contains-take (suc n) x [] h = h
contains-take (suc n) x (y ∷ s) h = ground (arith, contains-take n x s)

-- The cut keeps the smaller elements: what it drops lies above all that it keeps.
pub take_smallest :
    (n b x y : ℕ) (s : List ℕ)
    → Rises b s
    → contains x s ≡ true
    → contains x (take n s) ≡ false
    → contains y (take n s) ≡ true
    → y < x
unfolding contains
take_smallest zero b x y s r h k m = cc
take_smallest (suc n) b x y [] r h k m = cc
take_smallest (suc n) b x y (z ∷ s) r h k m =
    ground (arith, take_smallest n (suc z) x y s r.1, contains-lt (suc z) x s r.1)

-- Zero, the least number, stays.
pub zero-take :
    (n : ℕ) (s : List ℕ) → IsOrdered s → contains 0 s ≡ true → contains 0 (take (suc n) s) ≡ true
unfolding contains
zero-take n [] r h = h
zero-take n (y ∷ s) r h = ground (arith, contains-lt (suc y) 0 s r.1)
