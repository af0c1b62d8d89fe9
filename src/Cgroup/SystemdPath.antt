-- ===== src/Cgroup/SystemdPath.antt =====
-- `parseSystemdCgroupPath` of cgroup.go.
use Prim.Native.Char.{code}
use lxcri.Base.{
  String, ◌≡◌, refl, sym, ◌∙◌, ap, true, false, not, ◌&&◌, List, [], ◌∷◌, ◌++◌, ◌==◌, ◌<>◌,
  <>_assoc, <>-nil, cons-eq-nil, eqb, split, join, lacks, head_or, if◌then◌else◌, arith, All,
}
use lxcri.Base.FilePath.{join_path}

-- The loop over the name of the slice: at each dash but a leading one, the slice of the part before it.
unfoldable pub slices : String → String → List String
slices before String.[] = []
slices before (String.◌∷◌ c s) =
    let rest = slices (before <> String.◌∷◌ c "") s in
    if eqb (code c) b'-' && not (before == "") then (before <> ".slice") ∷ rest else rest

-- The part behind the first colon, if there is one, names the scope.
abbrev scopes : List String → List String
scopes [] = []
scopes (name ∷ []) = []
scopes (name ∷ (part ∷ parts)) = (join "-" (part ∷ parts) <> ".scope") ∷ []

-- `parseSystemdCgroupPath`
unfoldable pub parse_systemd_cgroup_path : String → String
parse_systemd_cgroup_path s =
    let parts = split b':' s in
    let name = head_or "" parts in join_path (slices "" name ++ (name ∷ scopes parts))

crio_test :
    parse_systemd_cgroup_path "kubepods-burstable-123.slice:crio:ABC"
    ≡ "kubepods.slice/kubepods-burstable.slice/kubepods-burstable-123.slice/crio-ABC.scope"
unfolding parse_systemd_cgroup_path slices join_path
crio_test = refl

-- The slices above a name with the parts `ps` behind `q`: one for each proper run of leading parts.
abbrev ancestors : String → List String → List String
ancestors q [] = []
ancestors q (p ∷ ps) = (q <> ".slice") ∷ ancestors (q <> "-" <> p) ps

slices_part :
    (before p t : String) → lacks b'-' p ≡ true → slices before (p <> t) ≡ slices (before <> p) t
unfolding slices
slices_part before String.[] t none_in = rw (<>-nil before) refl
slices_part before (String.◌∷◌ c p) t none_in =
    let here : eqb (code c) b'-' ≡ false = ground arith in
    let later : lacks b'-' p ≡ true = ground arith in
    rw here (
      slices_part (before <> String.◌∷◌ c "") p t later
      ∙ ap (λ b. slices b t) (<>_assoc before (String.◌∷◌ c "") p))

append-ne-nil : (q t : String) → (q == "") ≡ false → ((q <> t) == "") ≡ false
append-ne-nil String.[] t e = absurd cc
append-ne-nil (String.◌∷◌ c q) t e = cons-eq-nil c (q <> t)

-- The parts joined behind `acc`, where the first of them is not a leading dash.
slices-join :
    (acc p : String) (ps : List String)
    → ((acc <> p) == "") ≡ false
    → All (λ q. lacks b'-' q ≡ true) (p ∷ ps)
    → slices acc (join "-" (p ∷ ps)) ≡ ancestors (acc <> p) ps
unfolding slices
slices-join acc p [] named (clean, _) =
    ap (slices acc) (sym (<>-nil p)) ∙ slices_part acc p "" clean
slices-join acc p (y ∷ ys) named (clean, rest) =
    let q = acc <> p in
    let tail = join "-" (y ∷ ys) in
    let named' : (((q <> "-") <> y) == "") ≡ false =
      append-ne-nil (q <> "-") y (append-ne-nil q "-" named) in
    slices_part acc p ("-" <> tail) clean
    ∙ rw (named, slices)
        (ap (λ l. (q <> ".slice") ∷ l)
          (slices-join (q <> "-") y ys named' rest ∙ ap (λ b. ancestors b ys) (<>_assoc q "-" y)))

-- For a name that is made of parts without a dash, the first of them not empty, joined by dashes, the
-- loop finds the slice of each proper run of leading parts, outermost first.
slices_lem :
    (p : String) (ps : List String)
    → (p == "") ≡ false
    → All (λ q. lacks b'-' q ≡ true) (p ∷ ps)
    → slices "" (join "-" (p ∷ ps)) ≡ ancestors p ps
slices_lem p ps named clean = slices-join "" p ps named clean
