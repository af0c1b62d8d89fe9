-- ===== src/Base/FilePath.antt =====
-- `Join`, `Clean`, `Dir`, `Base` and `IsAbs` of Go's path/filepath on Unix.
use Prim.Native.String.{String}
use mathlib.Core.Path.{◌≡◌, refl}
use mathlib.Core.Bool.{Bool, true, false, ◌||◌}
use mathlib.Core.List.{List, [], ◌∷◌, reverse}
use text.Mathlib.Text.{◌==◌}
use lxcri.Base.Tests.{if◌then◌else◌}
use lxcri.Base.Text.{has_prefix, split, join, ◌<>◌}

-- One element of a path. The stack has its top at the head.
abbrev pub pop_or_push : Bool → List String → List String
pop_or_push rooted [] = if rooted then [] else ".." ∷ []
pop_or_push rooted (top ∷ stack) = if top == ".." then ".." ∷ (top ∷ stack) else stack

abbrev pub enter : Bool → List String → String → List String
enter rooted stack part =
    if part == "" || part == "."
    then stack
    else if part == ".."
    then pop_or_push rooted stack
    else part ∷ stack

unfoldable pub enter_all : Bool → List String → List String → List String
enter_all rooted stack [] = stack
enter_all rooted stack (part ∷ parts) = enter_all rooted (enter rooted stack part) parts

unfoldable pub unrooted : List String → String
unrooted [] = "."
unrooted (x ∷ xs) = join "/" (reverse (x ∷ xs))

-- filepath.IsAbs
abbrev pub is_abs : String → Bool
is_abs path = has_prefix path "/"

-- filepath.Clean
unfoldable pub clean : String → String
unfolding enter_all unrooted
clean path =
    if is_abs path
    then "/" <> join "/" (reverse (enter_all true [] (split b'/' path)))
    else unrooted (enter_all false [] (split b'/' path))

-- filepath.Join
unfoldable pub join_path : List String → String
unfolding clean
join_path [] = ""
join_path (e ∷ elems) =
    let rest = join_path elems in if e == "" then rest else clean (join "/" (e ∷ elems))

all_but_last : List String → List String
all_but_last [] = []
all_but_last (x ∷ []) = []
all_but_last (x ∷ (y ∷ ys)) = x ∷ all_but_last (y ∷ ys)

-- filepath.Dir
unfoldable pub dir : String → String
unfolding all_but_last clean
dir path = clean (join "/" (all_but_last (split b'/' path)) <> (if is_abs path then "/" else ""))

last_part : String → List String → String
last_part found [] = found
last_part found (part ∷ parts) = last_part (if part == "" then found else part) parts

-- filepath.Base: the last element that is not empty
unfoldable pub base : String → String
unfolding last_part
base path = if path == "" then "." else last_part "/" (split b'/' path)

base_test : base "/run/c1/pid//" ≡ "pid"
unfolding base
base_test = refl

clean_test : clean "/a/./b//../c/" ≡ "/a/c"
unfolding clean
clean_test = refl

join_path_test : join_path ("/run/lxcri" ∷ "" ∷ "c1" ∷ "../config" ∷ []) ≡ "/run/lxcri/config"
unfolding join_path
join_path_test = refl

relative_test : join_path ("" ∷ "a" ∷ "../../b" ∷ []) ≡ "../b"
unfolding join_path
relative_test = refl

dir_test : dir "/run/lxcri/c1/config" ≡ "/run/lxcri/c1"
unfolding dir
dir_test = refl
