-- ===== src/Base/CleanPath.antt =====
-- filepath.Clean, and so filepath.Join of elements one of which is not empty, returns no empty path.
use Prim.Native.String.{String}
use mathlib.Core.Path.{◌≡◌, refl}
use mathlib.Core.Logic.{inl, inr}
use mathlib.Core.Bool.{Bool, true, false, ◌||◌}
use mathlib.Core.List.{List, [], ◌∷◌, reverse_aux}
use native.Mathlib.Omega.{arith}
use text.Mathlib.Text.{◌==◌}
use lxcri.Base.Tests.{Bool-cases}
use lxcri.Base.Lists.{All}
use lxcri.Base.Text.{◌<>◌, join, split, cons-eq-nil}
use lxcri.Base.FilePath.{is_abs, enter, pop_or_push, enter_all, unrooted, clean, join_path}

abbrev IsGiven : String → Type 0
IsGiven s = (s == "") ≡ false

<>-IsGiven : (s t : String) → IsGiven s → IsGiven (s <> t)
<>-IsGiven String.[] t g = absurd cc
<>-IsGiven (String.◌∷◌ c s) t g = cons-eq-nil c (s <> t)

pop_or_push-All :
    (rooted : Bool) (stack : List String)
    → All IsGiven stack
    → All IsGiven (pop_or_push rooted stack)
pop_or_push-All true [] a = tt
pop_or_push-All false [] a = (refl, tt)
pop_or_push-All rooted (top ∷ stack) (g, a) = elim (Bool-cases (top == "..")) [
  | inl up ↦ rw up (refl, (g, a))
  | inr name ↦ rw name a
]

enter-All :
    (rooted : Bool) (stack : List String) (part : String)
    → All IsGiven stack
    → All IsGiven (enter rooted stack part)
enter-All rooted stack part a = elim (Bool-cases (part == "" || part == ".")) [
  | inl skipped ↦ rw skipped a
  | inr kept ↦ elim (Bool-cases (part == "..")) [
    | inl up ↦ rw (kept, up) (pop_or_push-All rooted stack a)
    | inr name ↦ rw (kept, name) (ground arith, a)
  ]
]

enter_all-All :
    (rooted : Bool) (stack parts : List String)
    → All IsGiven stack
    → All IsGiven (enter_all rooted stack parts)
unfolding enter_all
enter_all-All rooted stack [] a = a
enter_all-All rooted stack (part ∷ parts) a =
    enter_all-All rooted (enter rooted stack part) parts (enter-All rooted stack part a)

join-IsGiven : (x : String) (xs : List String) → IsGiven x → IsGiven (join "/" (x ∷ xs))
join-IsGiven x [] g = g
join-IsGiven x (y ∷ ys) g = <>-IsGiven x _ g

join-reverse_aux :
    (xs : List String) (y : String) (ys : List String)
    → All IsGiven xs
    → IsGiven y
    → IsGiven (join "/" (reverse_aux xs (y ∷ ys)))
join-reverse_aux [] y ys a g = join-IsGiven y ys g
join-reverse_aux (x ∷ xs) y ys (g', a) g = join-reverse_aux xs x (y ∷ ys) a g'

unrooted-IsGiven : (stack : List String) → All IsGiven stack → IsGiven (unrooted stack)
unfolding unrooted
unrooted-IsGiven [] a = refl
unrooted-IsGiven (x ∷ xs) (g, a) = join-reverse_aux xs x [] a g

clean-IsGiven : (path : String) → IsGiven (clean path)
unfolding clean
clean-IsGiven path = elim (Bool-cases (is_abs path)) [
  | inl abs ↦ rw (abs, clean) (<>-IsGiven "/" _ refl)
  | inr rel ↦
      rw (rel, clean)
        (unrooted-IsGiven (enter_all false [] (split b'/' path))
          (enter_all-All false [] (split b'/' path) tt))
]

pub join_path-IsGiven :
    (e : String) (elems : List String) → (e == "") ≡ false → (join_path (e ∷ elems) == "") ≡ false
unfolding join_path
join_path-IsGiven e elems g = rw (g, join_path) (clean-IsGiven (join "/" (e ∷ elems)))
