-- ===== src/Seccomp.antt =====
-- seccomp.go: the profile that is written for liblxc. `uname` is what uname(2) says of the machine, cut
-- at its first null. What the buffered writer passes on before an error is not modelled.
pub mod Free
use lxcri.Base.{
  ℕ, String, ◌≡◌, refl, sym, ◌∙◌, ap, Bool, true, false, ◌||◌, Option, none, some, List, [], ◌∷◌,
  ◌++◌, append_assoc, append-nil, ◌==◌, ◌<>◌, if◌then◌else◌, failed, wrapped, Result, ok, err,
  arith, decimal, to_lower, trim_prefix, length, repeat, map, Bool-cases, inl, inr,
}
use lxcri.Base.Host.{
  Host, M, create_file, write_text, sync_file, perform, lift, with_error, ◌>>=◌, ◌>>◌,
}
use lxcri.Oci.{SeccompArg, Syscall, SeccompProfile}

-- `seccompAction`
unfoldable pub seccomp_action : String → Option String
seccomp_action action =
    if action == "SCMP_ACT_KILL"
    then some "kill"
    else if action == "SCMP_ACT_TRAP"
    then some "trap"
    else if action == "SCMP_ACT_ERRNO"
    then some "errno"
    else if action == "SCMP_ACT_ALLOW"
    then some "allow"
    else none

-- `defaultAction`
unfoldable pub default_action : SeccompProfile → Result String
default_action profile =
    if profile.default_action == "SCMP_ACT_KILL"
    then ok "kill"
    else if profile.default_action == "SCMP_ACT_TRAP"
    then ok "trap"
    else if profile.default_action == "SCMP_ACT_ERRNO"
    then ok "errno 0"
    else if profile.default_action == "SCMP_ACT_ALLOW"
    then ok "allow"
    else err (failed ("unsupported seccomp default action " <> profile.default_action))

-- An architecture of the spec in the words of uname(2)
unfoldable pub arch_name : String → String
arch_name arch = to_lower (trim_prefix arch "SCMP_ARCH_")

-- The loop of `seccompArchs`, with what `archs` holds
unfoldable pub collect_archs : String → List String → List String → List String
collect_archs native archs [] = archs
collect_archs native archs (arch ∷ more) =
    let rest = collect_archs native (archs ++ (arch_name arch ∷ [])) more in
    if to_lower native == arch_name arch then native ∷ [] else rest

abbrev native_archs : List String → String → List String
native_archs [] native = native ∷ []
native_archs (arch ∷ more) native =
    collect_archs native (repeat (length (arch ∷ more)) "") (arch ∷ more)

abbrev map_ok : {A B : Type 0} → (A → B) → Result A → Result B
map_ok f (ok a) = ok (f a)
map_ok f (err e) = err e

-- `seccompArchs`. The slice is made with its length, so that it starts with empty names.
unfoldable pub seccomp_archs : Result String → SeccompProfile → Result (List String)
seccomp_archs uname profile = map_ok (native_archs profile.architectures) uname

errno_value : Option ℕ → ℕ
errno_value none = 0
errno_value (some n) = n

-- The action as it is written
unfoldable pub written_action : Syscall → String → String
unfolding errno_value
written_action sc action =
    if sc.action == "SCMP_ACT_ERRNO"
    then action <> " " <> decimal (errno_value sc.errno_ret)
    else action

unfoldable pub arg_text : SeccompArg → String
arg_text arg =
    "["
    <> decimal arg.index
    <> ","
    <> decimal arg.value
    <> ","
    <> arg.op
    <> ","
    <> decimal arg.value_two
    <> "]"

-- The lines for one name: one without arguments, or one for each argument
unfoldable pub name_lines : String → String → List SeccompArg → String
name_lines name action [] = name <> " " <> action <> "\n"
name_lines name action (arg ∷ args) = arg_lines (arg ∷ args)
  where
    arg_lines : List SeccompArg → String
    arg_lines [] = ""
    arg_lines (arg ∷ args) = name <> " " <> action <> " " <> arg_text arg <> "\n" <> arg_lines args

abbrev pub prepend : String → Result String → Result String
prepend t (ok s) = ok (t <> s)
prepend t (err e) = err e

-- `writeSeccompSyscall`
unfoldable pub write_names : Syscall → List String → Result String
write_names sc [] = ok ""
write_names sc (name ∷ names) =
    let rest = write_names sc names in
    elim (seccomp_action sc.action) [
      | none ↦ err (failed ("unsupported seccomp action: " <> sc.action))
      | some action ↦ prepend (name_lines name (written_action sc action) sc.args) rest
    ]

abbrev pub then_text : Result String → Result String → Result String
then_text (ok s) r = prepend s r
then_text (err e) r = err e

unfoldable pub write_syscalls : List Syscall → Result String
write_syscalls [] = ok ""
write_syscalls (sc ∷ scs) = then_text (write_names sc sc.names) (write_syscalls scs)

-- The sections, one for each architecture
unfoldable pub write_archs : List Syscall → List String → Result String
write_archs scs [] = ok ""
write_archs scs (arch ∷ archs) =
    then_text (prepend ("[" <> arch <> "]\n") (write_syscalls scs)) (write_archs scs archs)

-- `writeSeccompProfile`; the mode 0440 is 288
unfoldable pub write_seccomp_profile : Host → Result String → String → SeccompProfile → M (Unit {0})
write_seccomp_profile h uname path profile = do
  perform h (create_file path 288)
  action ← lift (default_action profile)
  archs ←
      with_error (wrapped "failed to detect platform architecture")
        (lift (seccomp_archs uname profile))
  sections ← lift (write_archs profile.syscalls archs)
  perform h (write_text path ("2\nallowlist " <> action <> "\n" <> sections))
  perform h (sync_file path)

-- One of the architectures is the machine's.
abbrev pub lists_native : String → List String → Bool
lists_native native [] = false
lists_native native (arch ∷ more) = to_lower native == arch_name arch || lists_native native more

collect_archs_foreign :
    (native : String) (archs more : List String)
    → lists_native native more ≡ false
    → collect_archs native archs more ≡ archs ++ map arch_name more
unfolding collect_archs
collect_archs_foreign native archs [] foreign = sym (append-nil archs)
collect_archs_foreign native archs (arch ∷ more) foreign =
    let here : (to_lower native == arch_name arch) ≡ false = ground arith in
    let later : lists_native native more ≡ false = ground arith in
    rw here (
      collect_archs_foreign native (archs ++ (arch_name arch ∷ [])) more later
      ∙ append_assoc archs (arch_name arch ∷ []) (map arch_name more))

collect_archs_native :
    (native : String) (archs more : List String)
    → lists_native native more ≡ true
    → collect_archs native archs more ≡ native ∷ []
unfolding collect_archs
collect_archs_native native archs [] known = absurd cc
collect_archs_native native archs (arch ∷ more) known =
    elim (Bool-cases (to_lower native == arch_name arch)) [
      | inl same ↦ rw same refl
      | inr other ↦
          let later : lists_native native more ≡ true = ground arith in
          rw other (collect_archs_native native (archs ++ (arch_name arch ∷ [])) more later)
    ]

-- If the spec lists architectures, the profile has the machine's alone where it is one of them. Where
-- it is none of them, all of theirs are taken, but behind as many empty names, so that the profile gets
-- as many sections without a name.
pub seccomp_archs_lem :
    (native arch : String) (more : List String) (profile : SeccompProfile)
    → profile.architectures ≡ arch ∷ more
    → (lists_native native (arch ∷ more) ≡ true
        → seccomp_archs (ok native) profile ≡ ok (native ∷ []))
      × (lists_native native (arch ∷ more) ≡ false
          → seccomp_archs (ok native) profile
            ≡ ok (repeat (length (arch ∷ more)) "" ++ map arch_name (arch ∷ more)))
unfolding seccomp_archs
seccomp_archs_lem native arch more profile e = (
  λ known.
      rw (e, seccomp_archs)
        (ap ok
          (collect_archs_native native (repeat (length (arch ∷ more)) "") (arch ∷ more) known)),
  λ foreign.
      rw (e, seccomp_archs)
        (ap ok
          (collect_archs_foreign native (repeat (length (arch ∷ more)) "") (arch ∷ more) foreign)),
)
