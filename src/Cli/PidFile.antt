-- ===== src/Cli/PidFile.antt =====
-- `createPidFile` of cmd/lxcri/utils.go, as a refinement of an atomic write.
use lxcri.Base.{
  ℕ, String, Option, none, some, ◌≡◌, ◌≢◌, refl, ap, ◌∙◌, List, [], ◌∷◌, ◌++◌, ◌<>◌, ◌==◌,
  if◌then◌else◌, ◌⊎◌, inl, inr, All, decimal, wrapped, Error, Result, ok, is_ok, eq_iff, eq_refl,
  Bool-cases, append_assoc,
}
use lxcri.Base.Calls.{Does, then-Does, wrapped-Does}
use lxcri.Base.Host.{
  >>=-eq-ok, Host, M, History, Call, create_new, write_text, close_file, rename_file, perform,
  with_error, ◌>>◌,
}
use lxcri.Base.FilePath.{join_path, dir, base}

-- The temporary file, next to the PID file
unfoldable pub tmp_name : String → String
tmp_name path = join_path (dir path ∷ ("." <> base path) ∷ [])

-- `createPidFile`
unfoldable pub create_pid_file : Host → String → ℕ → M (Unit {0})
create_pid_file h path pid = do
  let tmp : String = tmp_name path
  with_error (wrapped ("failed to create temporary PID file " <> tmp))
      (perform h (create_new tmp 384))
  with_error (wrapped ("failed to write to temporary PID file " <> tmp))
      (perform h (write_text tmp (decimal pid)))
  with_error (wrapped ("failed to close temporary PID file " <> tmp)) (perform h (close_file tmp))
  with_error (wrapped ("failed to rename temporary PID file " <> tmp <> " to " <> path))
      (perform h (rename_file tmp path))

-- The contents of the files that exist
abbrev pub Files : Type 0
Files = String → Option String

abbrev pub put : String → Option String → Files → Files
put path contents files q = if q == path then contents else files q

abbrev grown : Option String → String → Option String
grown none text = none
grown (some old) text = some (old <> text)

-- What a call that was taken does to the files: the calls of `createPidFile`.
abbrev effect : Call → Files → Files
effect (create_new path perm) files = put path (some "") files
effect (write_text path text) files = put path (grown (files path) text) files
effect (rename_file from to) files = put from none (put to (files from) files)
effect c files = files

-- A call that was refused does nothing.
abbrev pub after : Host → History → Call → Files → Files
after h w c files = elim (h.reply w c) [ none ↦ effect c files | some e ↦ files ]

-- The files behind a sequence of calls
abbrev replay : Host → History → List Call → Files → Files
replay h w [] files = files
replay h w (c ∷ cs) files = replay h (w ++ (c ∷ [])) cs (after h w c files)

-- What a reader of one file finds behind each of the calls
abbrev observed : Host → History → List Call → Files → String → List (Option String)
observed h w [] files q = []
observed h w (c ∷ cs) files q =
    after h w c files q ∷ observed h (w ++ (c ∷ [])) cs (after h w c files) q

-- A function on the files shows a reader of one file the old or the new contents all the time, the new
-- ones at the end if it returns no error, and the old ones if it does.
abbrev pub Replaces :
    Host
    → String
    → Option String
    → Option String
    → History
    → Files
    → Result (Unit {0}) × History
    → Type 0
Replaces h q old new w files (r, w') =
    (cs : List Call) × (w' ≡ w ++ cs)
    × (replay h w cs files q ≡ (if is_ok r then new else old))
    × All (λ seen. (seen ≡ old) ⊎ (seen ≡ new)) (observed h w cs files q)

module _ (h : Host) (q : String) (old new : Option String) where
  -- A call that does not show, in front of more.
  then-Replaces :
      (f : Error → Error) (c : Call) (k : M (Unit {0})) (w : History) (files : Files)
      → files q ≡ old
      → effect c files q ≡ old
      → Replaces h q old new (w ++ (c ∷ [])) (effect c files) (k (w ++ (c ∷ [])))
      → Replaces h q old new w files ((with_error f (perform h c) >> k) w)
  then-Replaces f c k w files e kept next = go (h.reply w c) refl
    where
      go :
          (o : Option Error)
          → h.reply w c ≡ o
          → Replaces h q old new w files ((with_error f (perform h c) >> k) w)
      go (some x) bad = rw bad (c ∷ [], refl, rw (bad, after) e, rw (bad, after) (inl e, tt))
      go none fine =
          let (cs, at, ends, seen) = next in
          rw fine (
            c ∷ cs,
            at ∙ append_assoc w (c ∷ []) cs,
            rw (fine, after) ends,
            rw (fine, after) (inl kept, seen),
          )

  -- The call that shows.
  last-Replaces :
      (f : Error → Error) (c : Call) (w : History) (files : Files)
      → files q ≡ old
      → effect c files q ≡ new
      → Replaces h q old new w files (with_error f (perform h c) w)
  last-Replaces f c w files e shown = go (h.reply w c) refl
    where
      go :
          (o : Option Error)
          → h.reply w c ≡ o
          → Replaces h q old new w files (with_error f (perform h c) w)
      go (some x) bad = rw bad (c ∷ [], refl, rw (bad, after) e, rw (bad, after) (inl e, tt))
      go none fine =
          rw fine (c ∷ [], refl, rw (fine, after) shown, rw (fine, after) (inr shown, tt))

put-other :
    (path q : String) (contents : Option String) (files : Files)
    → q ≢ path
    → put path contents files q ≡ files q
put-other path q contents files other = elim (Bool-cases (q == path)) [
  | inl same ↦ absurd (other ((eq_iff q path).0 same))
  | inr diff ↦ rw diff refl
]

put_same :
    (path : String) (contents : Option String) (files : Files)
    → put path contents files path ≡ contents
put_same path contents files = rw (eq_refl path) refl

-- `createPidFile` refines an atomic write of the decimal PID: whatever the host answers, a reader of
-- any file but the temporary one finds, behind each of the calls, what was there before or what the
-- write leaves there; at the end the write has happened if no error is returned, and not if one is.
pub create_pid_file_refines :
    (h : Host) (path : String) (pid : ℕ) (w : History) (files : Files) (q : String)
    → q ≢ tmp_name path
    → Replaces h q
        (files q)
        (put path (some (decimal pid)) files q)
        w
        files
        (create_pid_file h path pid w)
unfolding create_pid_file
create_pid_file_refines h path pid w files q other =
    let tmp = tmp_name path in
    let old = files q in
    let new = put path (some (decimal pid)) files q in
    let w₁ : History = w ++ (create_new tmp 384 ∷ []) in
    let w₂ : History = w₁ ++ (write_text tmp (decimal pid) ∷ []) in
    let w₃ : History = w₂ ++ (close_file tmp ∷ []) in
    let files₁ : Files = put tmp (some "") files in
    let files₂ : Files = put tmp (grown (files₁ tmp) (decimal pid)) files₁ in
    let kept₁ : files₁ q ≡ old = put-other tmp q _ files other in
    let kept₂ : files₂ q ≡ old = put-other tmp q _ files₁ other ∙ kept₁ in
    let text : files₂ tmp ≡ some (decimal pid) =
      put_same tmp _ files₁ ∙ ap (λ o. grown o (decimal pid)) (put_same tmp (some "") files) in
    let moved : put tmp none (put path (files₂ tmp) files₂) q ≡ new =
      put-other tmp q none (put path (files₂ tmp) files₂) other
      ∙ ap (λ o. put path o files₂ q) text
      ∙ ap (λ o. if q == path then some (decimal pid) else o) kept₂ in
    then-Replaces h q old new _ (create_new tmp 384) _ w files refl kept₁ (
      then-Replaces h q old new _ (write_text tmp (decimal pid)) _ w₁ files₁ kept₁ kept₂ (
        then-Replaces h q old new _ (close_file tmp) _ w₂ files₂ kept₂ kept₂
          (last-Replaces h q old new _ (rename_file tmp path) w₃ files₂ kept₂ moved)))

-- The calls of `createPidFile` that succeeds; none are made without a path.
abbrev pub pid_calls : String → ℕ → List Call
pid_calls path pid =
    if path == ""
    then []
    else create_new (tmp_name path) 384
      ∷ write_text (tmp_name path) (decimal pid)
      ∷ close_file (tmp_name path)
      ∷ rename_file (tmp_name path) path
      ∷ []

pub create_pid_file-Does :
    (h : Host) (path : String) (pid : ℕ) (w w' : History)
    → create_pid_file h path pid w ≡ (ok tt, w')
    → Does h w
        (create_new (tmp_name path) 384
          ∷ write_text (tmp_name path) (decimal pid)
          ∷ close_file (tmp_name path)
          ∷ rename_file (tmp_name path) path
          ∷ [])
        w'
unfolding create_pid_file
create_pid_file-Does h path pid w w' e =
    let tmp = tmp_name path in
    let f₁ : Error → Error = wrapped ("failed to create temporary PID file " <> tmp) in
    let f₂ : Error → Error = wrapped ("failed to write to temporary PID file " <> tmp) in
    let f₃ : Error → Error = wrapped ("failed to close temporary PID file " <> tmp) in
    let f₄ : Error → Error =
      wrapped ("failed to rename temporary PID file " <> tmp <> " to " <> path) in
    let move : M (Unit {0}) = with_error f₄ (perform h (rename_file tmp path)) in
    let shut : M (Unit {0}) = with_error f₃ (perform h (close_file tmp)) in
    let fill : M (Unit {0}) = with_error f₂ (perform h (write_text tmp (decimal pid))) in
    let (_, w₁, made, e₁) =
      >>=-eq-ok (with_error f₁ (perform h (create_new tmp 384))) (λ _. fill >> (shut >> move)) w
        e in
    let (_, w₂, filled, e₂) = >>=-eq-ok fill (λ _. shut >> move) w₁ e₁ in
    let (_, w₃, closed, e₃) = >>=-eq-ok shut (λ _. move) w₂ e₂ in
    then-Does h w w₁ w' (create_new tmp 384 ∷ []) _ (wrapped-Does h f₁ _ w w₁ made) (
      then-Does h w₁ w₂ w' (write_text tmp (decimal pid) ∷ []) _ (wrapped-Does h f₂ _ w₁ w₂ filled)
        (then-Does h w₂ w₃ w' (close_file tmp ∷ []) _ (wrapped-Does h f₃ _ w₂ w₃ closed)
          (wrapped-Does h f₄ (rename_file tmp path) w₃ w' e₃)))
