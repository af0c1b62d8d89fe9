-- ===== src/Base/Text.antt =====
-- The functions of Go's `strings` and `fmt` that the source calls, over `String`, and their laws.
use Prim.Native.Char.{Char, code}
use Prim.Native.Nat.{ℕ, zero, suc, ◌/◌, ◌%◌}
use Prim.Native.String.{String}
use mathlib.Core.Path.{◌≡◌, refl, ap, ap₂, sym, ◌∙◌}
use mathlib.Core.Logic.{◌≢◌, inl, inr}
use mathlib.Core.Bool.{Bool, true, false, not, ◌&&◌, ◌||◌}
use mathlib.Core.List.{List, [], ◌∷◌}
use native.Mathlib.Omega.{arith}
use text.Mathlib.Text.{◌==◌}
use text.Mathlib.TextLemmas.{nil≢cons}
use text.Mathlib.TextEquality.{eq_iff, Char-path}
use lxcri.Base.Tests.{leb, eqb, eqb_iff, if◌then◌else◌, Bool-cases}

-- Concatenation that computes at its first argument.
infixr 66 ◌<>◌
abbrev pub ◌<>◌ : String → String → String
String.[] <> t = t
String.◌∷◌ c s <> t = String.◌∷◌ c (s <> t)

pub <>_assoc : (s t u : String) → (s <> t) <> u ≡ s <> (t <> u)
<>_assoc String.[] t u = refl
<>_assoc (String.◌∷◌ c s) t u = ap (String.◌∷◌ c) (<>_assoc s t u)

pub <>-nil : (s : String) → s <> "" ≡ s
<>-nil String.[] = refl
<>-nil (String.◌∷◌ c s) = ap (String.◌∷◌ c) (<>-nil s)

-- strings.HasPrefix
abbrev pub has_prefix : String → String → Bool
has_prefix s String.[] = true
has_prefix String.[] (String.◌∷◌ d p) = false
has_prefix (String.◌∷◌ c s) (String.◌∷◌ d p) = eqb (code c) (code d) && has_prefix s p

-- What is left of `s` behind as many characters as `p` has.
abbrev pub strip : String → String → String
strip s String.[] = s
strip String.[] (String.◌∷◌ d p) = ""
strip (String.◌∷◌ c s) (String.◌∷◌ d p) = strip s p

-- strings.TrimPrefix
abbrev pub trim_prefix : String → String → String
trim_prefix s p = if has_prefix s p then strip s p else s

is_space : ℕ → Bool
is_space c = eqb c 32 || (leb 9 c && leb c 13)

-- strings.TrimSpace, at ASCII: no space is left before the text,
unfoldable trim_left_space : String → String
unfolding is_space
trim_left_space String.[] = ""
trim_left_space (String.◌∷◌ c s) =
    let rest = trim_left_space s in if is_space (code c) then rest else String.◌∷◌ c s

cons_unless_blank : Char → String → String
unfolding is_space
cons_unless_blank c String.[] = if is_space (code c) then "" else String.◌∷◌ c ""
cons_unless_blank c (String.◌∷◌ d s) = String.◌∷◌ c (String.◌∷◌ d s)

-- and none behind it.
unfoldable trim_right_space : String → String
unfolding cons_unless_blank
trim_right_space String.[] = ""
trim_right_space (String.◌∷◌ c s) = cons_unless_blank c (trim_right_space s)

-- strings.TrimSpace
unfoldable pub trim_space : String → String
unfolding trim_left_space trim_right_space
trim_space s = trim_right_space (trim_left_space s)

-- strings.TrimLeft with a cutset of one character
abbrev pub trim_left : ℕ → String → String
trim_left k String.[] = ""
trim_left k (String.◌∷◌ c s) =
    let rest = trim_left k s in if eqb (code c) k then rest else String.◌∷◌ c s

has_prefix-append : (p s : String) → has_prefix (p <> s) p ≡ true
has_prefix-append String.[] s = refl
has_prefix-append (String.◌∷◌ c p) s = ground (arith, has_prefix-append p s)

pub strip-append : (p s : String) → strip (p <> s) p ≡ s
strip-append String.[] s = refl
strip-append (String.◌∷◌ c p) s = strip-append p s

and_left : (a b : Bool) → (a && b) ≡ true → a ≡ true
and_left a b h = ground arith

and_right : (a b : Bool) → (a && b) ≡ true → b ≡ true
and_right a b h = ground arith

pub append-strip : (s p : String) → has_prefix s p ≡ true → p <> strip s p ≡ s
append-strip s String.[] h = refl
append-strip String.[] (String.◌∷◌ d p) h = cc
append-strip (String.◌∷◌ c s) (String.◌∷◌ d p) h =
    let e = (eqb_iff (code c) (code d)).0 (and_left _ (has_prefix s p) h) in
    ap₂ String.◌∷◌ (sym (Char-path c d e))
      (append-strip s p (and_right (eqb (code c) (code d)) _ h))

Bool-eq_of_iff : (a b : Bool) → (a ≡ true → b ≡ true) → (b ≡ true → a ≡ true) → a ≡ b
Bool-eq_of_iff a b f g = ground arith

pub eq-cons :
    (c d : Char) (s t : String)
    → (String.◌∷◌ c s == String.◌∷◌ d t) ≡ (eqb (code c) (code d) && (s == t))
eq-cons c d s t =
    Bool-eq_of_iff _ _
      (λ h.
        let e = (eq_iff (String.◌∷◌ c s) (String.◌∷◌ d t)).0 h in
        let e₁ : code c ≡ code d = cc in
        let e₂ : s ≡ t = cc in ground (arith, eqb_iff (code c) (code d), eq_iff s t))
      (λ h.
        let e₁ = Char-path c d ((eqb_iff (code c) (code d)).0 (and_left _ (s == t) h)) in
        let e₂ = (eq_iff s t).0 (and_right (eqb (code c) (code d)) _ h) in
        (eq_iff (String.◌∷◌ c s) (String.◌∷◌ d t)).1 (ap₂ String.◌∷◌ e₁ e₂))

pub nil-eq-cons : (c : Char) (s : String) → ("" == String.◌∷◌ c s) ≡ false
nil-eq-cons c s = Bool-eq_of_iff _ _ (λ h. absurd (nil≢cons ((eq_iff _ _).0 h))) (λ h. cc)

pub cons-eq-nil : (c : Char) (s : String) → (String.◌∷◌ c s == "") ≡ false
cons-eq-nil c s = Bool-eq_of_iff _ _ (λ h. absurd (nil≢cons (sym ((eq_iff _ _).0 h)))) (λ h. cc)

-- The characters of `s` are all other than `k`.
abbrev pub lacks : ℕ → String → Bool
lacks k String.[] = true
lacks k (String.◌∷◌ c s) = not (eqb (code c) k) && lacks k s

abbrev pub push_head : Char → List String → List String
push_head c [] = (String.◌∷◌ c "") ∷ []
push_head c (x ∷ xs) = String.◌∷◌ c x ∷ xs

-- strings.Split with a separator of one character
abbrev pub split : ℕ → String → List String
split k String.[] = "" ∷ []
split k (String.◌∷◌ c s) =
    let rest = split k s in if eqb (code c) k then "" ∷ rest else push_head c rest

abbrev pub head_or : String → List String → String
head_or d [] = d
head_or d (x ∷ xs) = x

-- strings.Join
abbrev pub join : String → List String → String
join sep [] = ""
join sep (x ∷ []) = x
join sep (x ∷ (y ∷ ys)) = x <> sep <> join sep (y ∷ ys)

-- One character by a table: the n-th of `from` becomes the n-th of `to`.
abbrev translate_char : String → String → Char → Char
translate_char String.[] to c = c
translate_char (String.◌∷◌ d from) String.[] c = c
translate_char (String.◌∷◌ d from) (String.◌∷◌ e to) c =
    let rest = translate_char from to c in if eqb (code c) (code d) then e else rest

translate : String → String → String → String
translate from to String.[] = ""
translate from to (String.◌∷◌ c s) = String.◌∷◌ (translate_char from to c) (translate from to s)

-- strings.ToLower and strings.ToUpper, at the ASCII letters
unfoldable pub to_lower : String → String
unfolding translate
to_lower = translate "ABCDEFGHIJKLMNOPQRSTUVWXYZ" "abcdefghijklmnopqrstuvwxyz"

unfoldable pub to_upper : String → String
unfolding translate
to_upper = translate "abcdefghijklmnopqrstuvwxyz" "ABCDEFGHIJKLMNOPQRSTUVWXYZ"

nth_char : ℕ → String → String
nth_char k String.[] = ""
nth_char zero (String.◌∷◌ c s) = String.◌∷◌ c ""
nth_char (suc k) (String.◌∷◌ c s) = nth_char k s

unfoldable pub digit : ℕ → String
unfolding nth_char
digit d = nth_char d "0123456789"

-- The digits of `n` before `acc`; `f` bounds their number.
unfoldable pub digits_from : ℕ → ℕ → String → String
digits_from zero n acc = acc
digits_from (suc f) n acc =
    let acc' = digit (n % 10) <> acc in
    let rest = digits_from f (n / 10) acc' in if eqb (n / 10) 0 then acc' else rest

-- fmt.Sprintf("%d", n)
unfoldable pub decimal : ℕ → String
unfolding digits_from
decimal n = digits_from (suc n) n ""

to_lower_test : to_lower "CAP_Chown" ≡ "cap_chown"
unfolding to_lower
to_lower_test = refl

decimal_test : decimal 4096 <> decimal 0 ≡ "40960"
unfolding decimal digits_from digit
decimal_test = refl

split_test : split b':' "0::/a:b" ≡ "0" ∷ "" ∷ "/a" ∷ "b" ∷ []
split_test = refl

push_head-join :
    (k : Char) (c : Char) (xs : List String)
    → xs ≢ []
    → join (String.◌∷◌ k "") (push_head c xs) ≡ String.◌∷◌ c (join (String.◌∷◌ k "") xs)
push_head-join k c [] h = absurd (h refl)
push_head-join k c (x ∷ []) h = refl
push_head-join k c (x ∷ (y ∷ ys)) h = refl

push_head-ne-nil : (c : Char) (xs : List String) → push_head c xs ≢ []
push_head-ne-nil c [] e = cc
push_head-ne-nil c (x ∷ xs) e = cc

split-ne-nil : (k : ℕ) (s : String) → split k s ≢ []
split-ne-nil k String.[] = λ e. cc
split-ne-nil k (String.◌∷◌ c s) = elim (Bool-cases (eqb (code c) k)) [
  | inl same ↦ rw same (λ e. cc)
  | inr diff ↦ rw diff (push_head-ne-nil c (split k s))
]

cons-join :
    (k : Char) (xs : List String)
    → xs ≢ []
    → join (String.◌∷◌ k "") ("" ∷ xs) ≡ String.◌∷◌ k (join (String.◌∷◌ k "") xs)
cons-join k [] h = absurd (h refl)
cons-join k (x ∷ xs) h = refl

-- Joining the parts with the separator gives the text back.
join-split : (k : Char) (s : String) → join (String.◌∷◌ k "") (split (code k) s) ≡ s
join-split k String.[] = refl
join-split k (String.◌∷◌ c s) = elim (Bool-cases (eqb (code c) (code k))) [
  | inl same ↦ rw same (
      cons-join k _ (split-ne-nil (code k) s)
      ∙ ap₂ String.◌∷◌ (sym (Char-path c k ((eqb_iff _ _).0 same))) (join-split k s))
  | inr diff ↦
      rw diff (push_head-join k c _ (split-ne-nil (code k) s) ∙ ap (String.◌∷◌ c) (join-split k s))
]
