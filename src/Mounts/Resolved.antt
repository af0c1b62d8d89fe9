-- ===== src/Mounts/Resolved.antt =====
-- The order of mounts.
use lxcri.Base.{
  ℕ, suc, String, ◌≡◌, refl, ◌∙◌, Bool, true, false, not, ◌&&◌, List, [], ◌∷◌, if◌then◌else◌, arith,
  has_prefix, All, Bool-cases, inl, inr,
}
use mathlib.Core.Path.{subst}
use lxcri.Oci.{Mount}
use lxcri.Mounts.{less_text, less, insert, sort}

less_text-asym : (s t : String) → less_text s t ≡ true → less_text t s ≡ false
less_text-asym s String.[] e = absurd cc
less_text-asym String.[] (String.◌∷◌ d t) e = refl
less_text-asym (String.◌∷◌ c s) (String.◌∷◌ d t) e = ground (arith, less_text-asym s t)

-- No mount of the list has a destination before that of the one in front of it.
abbrev IsSorted : List Mount → Type 0
IsSorted [] = Unit
IsSorted (m ∷ []) = Unit
IsSorted (m ∷ (n ∷ ms)) = (less n m ≡ false) × IsSorted (n ∷ ms)

-- How many mounts pass a test.
abbrev pub count : (Mount → Bool) → List Mount → ℕ
count p [] = 0
count p (m ∷ ms) = let rest = count p ms in if p m then suc rest else rest

less-asym : (m n : Mount) → less m n ≡ true → less n m ≡ false
unfolding less
less-asym m n = less_text-asym m.destination n.destination

insert-IsSorted : (m : Mount) (ms : List Mount) → IsSorted ms → IsSorted (insert m ms)
unfolding insert
insert-IsSorted m [] sorted = tt
insert-IsSorted m (n ∷ []) sorted = elim (Bool-cases (less n m)) [
  | inl before ↦ rw (before, insert) (less-asym n m before, tt)
  | inr behind ↦ rw (behind, insert) (behind, tt)
]
insert-IsSorted m (n ∷ (k ∷ ms)) (nk, sorted) = elim (Bool-cases (less n m)) [
  | inr behind ↦ rw (behind, insert) (behind, (nk, sorted))
  | inl before ↦ elim (Bool-cases (less k m)) [
    | inl next ↦
        rw (before, insert) (rw (next, insert) (nk, step next (insert-IsSorted m (k ∷ ms) sorted)))
    | inr stop ↦ rw (before, insert) (rw (stop, insert) (less-asym n m before, (stop, sorted)))
  ]
]
  where
    step : less k m ≡ true → IsSorted (insert m (k ∷ ms)) → IsSorted (k ∷ insert m ms)
    step next s =
        let e : insert m (k ∷ ms) ≡ k ∷ insert m ms = rw (next, insert) refl in subst IsSorted e s

count-insert :
    (p : Mount → Bool) (m : Mount) (ms : List Mount) → count p (insert m ms) ≡ count p (m ∷ ms)
unfolding insert
count-insert p m [] = refl
count-insert p m (n ∷ ns) = ground (arith, count-insert p m ns)

-- The destination of the first goes on behind that of the second.
abbrev is_below : Mount → Mount → Bool
is_below m n =
    has_prefix m.destination n.destination && not (has_prefix n.destination m.destination)

-- What is mounted below another mount stands behind it.
abbrev pub ParentsFirst : List Mount → Type 0
ParentsFirst [] = Unit
ParentsFirst (m ∷ ms) = All (λ n. is_below m n ≡ false) ms × ParentsFirst ms

less_text_trans :
    (s t u : String) → less_text t s ≡ false → less_text u t ≡ false → less_text u s ≡ false
less_text_trans String.[] t u e f = refl
less_text_trans (String.◌∷◌ c s) String.[] u e f = absurd cc
less_text_trans (String.◌∷◌ c s) (String.◌∷◌ d t) String.[] e f = absurd cc
less_text_trans (String.◌∷◌ c s) (String.◌∷◌ d t) (String.◌∷◌ b u) e f =
    ground (arith, less_text_trans s t u)

-- A text comes before those that go on behind it.
prefix-less_text :
    (s t : String) → has_prefix s t ≡ true → has_prefix t s ≡ false → less_text t s ≡ true
prefix-less_text String.[] String.[] e f = absurd cc
prefix-less_text (String.◌∷◌ c s) String.[] e f = refl
prefix-less_text String.[] (String.◌∷◌ d t) e f = absurd cc
prefix-less_text (String.◌∷◌ c s) (String.◌∷◌ d t) e f = ground (arith, prefix-less_text s t)

not_less-not_below : (m n : Mount) → less n m ≡ false → is_below m n ≡ false
unfolding less
not_less-not_below m n e = ground (arith, prefix-less_text m.destination n.destination)

IsSorted-behind : (m : Mount) (ms : List Mount) → IsSorted (m ∷ ms) → All (λ n. less n m ≡ false) ms
unfolding less
IsSorted-behind m [] sorted = tt
IsSorted-behind m (n ∷ ms) (nm, sorted) = (nm, go ms (IsSorted-behind n ms sorted))
  where
    go : (ks : List Mount) → All (λ k. less k n ≡ false) ks → All (λ k. less k m ≡ false) ks
    go [] behind = tt
    go (k ∷ ks) (kn, behind) =
        (less_text_trans m.destination n.destination k.destination nm kn, go ks behind)

IsSorted-tail : (m : Mount) (ms : List Mount) → IsSorted (m ∷ ms) → IsSorted ms
IsSorted-tail m [] sorted = tt
IsSorted-tail m (n ∷ ms) (nm, sorted) = sorted

IsSorted-ParentsFirst : (ms : List Mount) → IsSorted ms → ParentsFirst ms
IsSorted-ParentsFirst [] sorted = tt
IsSorted-ParentsFirst (m ∷ ms) sorted =
    (go ms (IsSorted-behind m ms sorted), IsSorted-ParentsFirst ms (IsSorted-tail m ms sorted))
  where
    go : (ks : List Mount) → All (λ k. less k m ≡ false) ks → All (λ k. is_below m k ≡ false) ks
    go [] behind = tt
    go (k ∷ ks) (km, behind) = (not_less-not_below m k km, go ks behind)

sort-IsSorted : (ms : List Mount) → IsSorted (sort ms)
unfolding sort
sort-IsSorted [] = tt
sort-IsSorted (m ∷ ms) = insert-IsSorted m (sort ms) (sort-IsSorted ms)

count-sort : (p : Mount → Bool) (ms : List Mount) → count p (sort ms) ≡ count p ms
unfolding sort
count-sort p [] = refl
count-sort p (m ∷ ms) = count-insert p m (sort ms) ∙ ground (arith, count-sort p ms)

-- In the order that sorting puts the mounts in, none stands in front of one whose destination is a
-- proper prefix of its own, so that a directory comes before what is mounted below it; and sorting
-- neither drops nor doubles a mount: as many as before pass any test.
pub sort-ParentsFirst :
    (ms : List Mount)
    → ParentsFirst (sort ms) × ((p : Mount → Bool) → count p (sort ms) ≡ count p ms)
sort-ParentsFirst ms = (IsSorted-ParentsFirst (sort ms) (sort-IsSorted ms), λ p. count-sort p ms)
