-- ===== src/Specki/IdMap.antt =====
-- `UnmapContainerID` of pkg/specki/specki.go, over uint32.
use lxcri.Base.{
  ℕ, ◌+◌, ◌-◌, ◌%◌, ◌≤◌, ◌<◌, ◌≡◌, refl, ◌&&◌, Option, none, some, List, [], ◌∷◌, arith, ltb, leb,
  if◌then◌else◌, All,
}
use lxcri.Oci.{IdMapping}

abbrev u32_mod : ℕ
u32_mod = 4294967296

abbrev add32 : ℕ → ℕ → ℕ
add32 a b = (a + b) % u32_mod

abbrev sub32 : ℕ → ℕ → ℕ
sub32 a b = (a + u32_mod - b) % u32_mod

unfoldable pub unmap_container_id : ℕ → List IdMapping → ℕ
unmap_container_id id [] = id
unmap_container_id id (m ∷ ms) =
    let rest = unmap_container_id id ms in
    let max_id = sub32 (add32 m.container_id m.size) 1 in
    if ltb m.size 1
    then rest
    else if leb m.container_id id && leb id max_id
    then add32 m.host_id (sub32 id m.container_id)
    else rest

-- The fields are uint32 and neither range passes the end of the ID space.
pub record Fits (m : IdMapping) : Type 0 where
  pub container_fits : m.container_id + m.size ≤ u32_mod
  pub host_fits : m.host_id + m.size ≤ u32_mod

-- The mapping as a partial function between ranges, over unbounded numbers.
abbrev image : ℕ → IdMapping → Option ℕ
image id m =
    if leb m.container_id id && ltb id (m.container_id + m.size)
    then some (m.host_id + (id - m.container_id))
    else none

-- The first mapping that covers the ID decides; an ID that none covers stands for itself.
abbrev pub first_image : ℕ → List IdMapping → ℕ
first_image id [] = id
first_image id (m ∷ ms) = elim (image id m) [ some host ↦ host | none ↦ first_image id ms ]

step_lem :
    (id : ℕ) (m : IdMapping) (a b : ℕ)
    → id < u32_mod
    → Fits m
    → a ≡ b
    → (if ltb m.size 1
        then a
        else if leb m.container_id id && leb id (sub32 (add32 m.container_id m.size) 1)
        then add32 m.host_id (sub32 id m.container_id)
        else a)
      ≡ elim (image id m) [ some host ↦ host | none ↦ b ]
step_lem id m a b h f e = ground arith

-- The wrapping loop over uint32 computes the first covering mapping, for every ID and every list of
-- mappings whose ranges fit the ID space.
pub unmap_container_id-first_image :
    (id : ℕ) (ms : List IdMapping)
    → id < u32_mod
    → All Fits ms
    → unmap_container_id id ms ≡ first_image id ms
unfolding unmap_container_id
unmap_container_id-first_image id [] h f = refl
unmap_container_id-first_image id (m ∷ ms) h (f, fs) =
    step_lem id m _ _ h f (unmap_container_id-first_image id ms h fs)

-- A mapping whose container range runs past the last uint32 covers no ID: the end wraps to below
-- the start, so the loop passes over it.
pub unmap_container_id_overflow :
    (id : ℕ) (m : IdMapping) (ms : List IdMapping)
    → m.container_id < u32_mod
    → m.size < u32_mod
    → u32_mod < m.container_id + m.size
    → unmap_container_id id (m ∷ ms) ≡ unmap_container_id id ms
unfolding unmap_container_id
unmap_container_id_overflow id m ms c s h = ground arith
