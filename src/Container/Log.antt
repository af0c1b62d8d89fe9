-- ===== src/Container/Log.antt =====
-- `SetLog` and `parseContainerLogLevel` of container.go.
use lxcri.Base.{
  String, ◌≡◌, refl, Bool, true, false, ◌&&◌, ◌||◌, List, [], ◌∷◌, ◌++◌, ◌==◌, to_lower,
  if◌then◌else◌, wrapped, append_assoc, ◌∙◌, Option-cases, inl, inr,
}
use lxcri.Base.Host.{
  Host, M, History, LxcLogLevel, verbose, set_verbosity, set_log_level, set_log_file, perform,
  perform_history, record_call, with_error, ◌>>◌, Call,
}

unfoldable pub parse_container_log_level : String → LxcLogLevel
parse_container_log_level level =
    let l = to_lower level in
    if l == "trace"
    then LxcLogLevel.trace
    else if l == "debug"
    then LxcLogLevel.debug
    else if l == "info"
    then LxcLogLevel.info
    else if l == "notice"
    then LxcLogLevel.notice
    else if l == "warn"
    then LxcLogLevel.warn
    else if l == "error"
    then LxcLogLevel.error
    else if l == "crit"
    then LxcLogLevel.crit
    else if l == "alert"
    then LxcLogLevel.alert
    else if l == "fatal"
    then LxcLogLevel.fatal
    else LxcLogLevel.warn

is_trace : LxcLogLevel → Bool
is_trace LxcLogLevel.trace = true
is_trace _ = false

-- Whether the log goes to a standard stream, at the most verbose level.
unfoldable pub wants_verbose : String → LxcLogLevel → Bool
unfolding is_trace
wants_verbose filename level =
    is_trace level
    && (filename == "/dev/stderr"
        || filename == "/dev/stdout"
        || filename == "/proc/self/fd/1"
        || filename == "/proc/self/fd/2")

-- `SetLog`. Both branches of its test set lxc.Verbose.
unfoldable pub set_log : Host → String → String → M (Unit {0})
set_log h filename level = do
  record_call (
      if wants_verbose filename (parse_container_log_level level)
      then set_verbosity verbose
      else set_verbosity verbose)
  with_error (wrapped "failed to set container loglevel")
      (perform h (set_log_level (parse_container_log_level level)))
  with_error (wrapped "failed to set container log file") (perform h (set_log_file filename))

-- Whatever the file and the level, liblxc is made verbose, also where `SetLog` finds that the log does
-- not go to a standard stream.
set_log_always_verbose :
    (h : Host) (filename level : String) (w : History)
    → wants_verbose filename (parse_container_log_level level) ≡ false
    → (later : List Call) × ((set_log h filename level w).1 ≡ w ++ (set_verbosity verbose ∷ later))
unfolding set_log
set_log_always_verbose h filename level w quiet =
    elim (Option-cases (
      h.reply (w ++ (set_verbosity verbose ∷ []))
        (set_log_level (parse_container_log_level level)))) [
          | inl fine ↦ (
            set_log_level (parse_container_log_level level) ∷ (set_log_file filename ∷ []),
            rw (quiet, fine, set_log) (perform_history h _ _ _ ∙ simp append_assoc),
          )
          | inr (e, refused) ↦ (
            set_log_level (parse_container_log_level level) ∷ [],
            rw (quiet, refused, set_log) (simp append_assoc),
          )
        ]

log_level_test : parse_container_log_level "Notice" ≡ LxcLogLevel.notice
unfolding parse_container_log_level to_lower
log_level_test = refl
