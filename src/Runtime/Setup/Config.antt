-- ===== src/Runtime/Setup/Config.antt =====
-- Which configuration file `LoadConfig` takes.
use lxcri.Base.{
  String, ◌≡◌, refl, ap, ◌∙◌, false, List, [], ◌∷◌, ◌++◌, ◌==◌, if◌then◌else◌, Result, ok, err,
  is_not_exist, Bool-cases, inl, inr,
}
use lxcri.Base.Host.{Host, History, FileInfo, bind_step, ◌>>=◌}
use lxcri.Base.FilePath.{join_path}
use lxcri.Base.CleanPath.{join_path-IsGiven}
use lxcri.Runtime.Setup.{
  lookup_given, optional_file, judge_optional, find_given, find_user, find_system, find_config,
}

module _ (h : Host) (w : History) where
  -- The first path of a list that exists, or none; an error other than that a file does not exist ends
  -- the search.
  abbrev first_existing : List String → Result String
  first_existing [] = ok ""
  first_existing (path ∷ paths) =
      let rest = first_existing paths in
      elim (h.stat w path) [ ok info ↦ ok path | err e ↦ if is_not_exist e then rest else err e ]

  -- A path that must exist
  abbrev existing : String → Result String
  existing path = elim (h.stat w path) [ ok info ↦ ok path | err e ↦ err e ]

  -- The files that are looked for where none is named
  abbrev default_files : String → List String
  default_files home =
      (if home == "" then [] else join_path (home ∷ ".config/lxcri.yaml" ∷ []) ∷ [])
      ++ ("/etc/lxcri/lxcri.yaml" ∷ [])

  -- The order: the path that is given, else the value of LXCRI_CONFIG, either of which must
  -- exist, else the first existing default.
  abbrev pub ordered_config : String → Result String
  ordered_config config_path =
      let given = if config_path == "" then lookup_given h "LXCRI_CONFIG" else config_path in
      if given == "" then first_existing (default_files (lookup_given h "HOME")) else existing given

  system_lem : find_system h "" w ≡ (first_existing ("/etc/lxcri/lxcri.yaml" ∷ []), w)
  unfolding find_system optional_file
  system_lem = go (h.stat w "/etc/lxcri/lxcri.yaml") refl
    where
      go :
          (r : Result FileInfo)
          → h.stat w "/etc/lxcri/lxcri.yaml" ≡ r
          → find_system h "" w ≡ (first_existing ("/etc/lxcri/lxcri.yaml" ∷ []), w)
      go (ok info) e = rw (e, find_system, optional_file, judge_optional, first_existing) refl
      go (err x) e = rw (e, find_system, optional_file, judge_optional, first_existing) refl

  found_system : (path : String) → (path == "") ≡ false → find_system h path w ≡ (ok path, w)
  unfolding find_system
  found_system path given = rw (given, find_system) refl

  found_user : (path : String) → (path == "") ≡ false → find_user h path w ≡ (ok path, w)
  unfolding find_user
  found_user path given = rw (given, find_user) refl

  -- The search among the defaults
  defaults_lem :
      (find_user h "" >>= find_system h) w
      ≡ (first_existing (default_files (lookup_given h "HOME")), w)
  unfolding find_user optional_file
  defaults_lem = elim (Bool-cases (lookup_given h "HOME" == "")) [
    | inl no_home ↦ rw (no_home, find_user) system_lem
    | inr home ↦
        go home (h.stat w (join_path (lookup_given h "HOME" ∷ ".config/lxcri.yaml" ∷ []))) refl
  ]
    where
      path : String
      path = join_path (lookup_given h "HOME" ∷ ".config/lxcri.yaml" ∷ [])

      go :
          (lookup_given h "HOME" == "") ≡ false
          → (r : Result FileInfo) → h.stat w path ≡ r
          → (find_user h "" >>= find_system h) w
            ≡ (first_existing (default_files (lookup_given h "HOME")), w)
      go home (ok info) e =
          rw (home, e, find_user, optional_file, judge_optional, first_existing)
            (found_system path (join_path-IsGiven (lookup_given h "HOME") _ home))
      go home (err x) e = elim (Bool-cases (is_not_exist x)) [
        | inl missing ↦
            rw (home, e, missing, find_user, optional_file, judge_optional, first_existing)
              system_lem
        | inr bad ↦ rw (home, e, bad, find_user, optional_file, judge_optional, first_existing) refl
      ]

  -- `LoadConfig` looks for its file in this order: the path that is given, else the value of
  -- LXCRI_CONFIG, either of which must exist; without both, the first that exists of the user's file,
  -- where HOME is set, and the system's. A file that does not exist is passed over, any other error of
  -- stat ends the search. Nothing is changed on the host.
  pub find_config_ordered :
      (config_path : String) → find_config h config_path w ≡ (ordered_config config_path, w)
  unfolding find_config find_given
  find_config_ordered config_path = elim (Bool-cases (given == "")) [
    | inl none ↦ rw (none, find_config, find_given) defaults_lem
    | inr some ↦ go some (h.stat w given) refl
  ]
    where
      given : String
      given = if config_path == "" then lookup_given h "LXCRI_CONFIG" else config_path

      go :
          (given == "") ≡ false
          → (r : Result FileInfo) → h.stat w given ≡ r
          → find_config h config_path w ≡ (ordered_config config_path, w)
      go some (err x) e = rw (some, e, find_config, find_given, ordered_config, existing) refl
      go some (ok info) e =
          rw (some, e, find_config, find_given, ordered_config, existing)
            (ap (λ u. bind_step u (find_system h)) (found_user given some)
              ∙ found_system given some)
