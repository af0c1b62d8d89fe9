-- ===== src/Create/Created.antt =====
-- What `Create` has done when it succeeds.
use mathlib.Core.Path.{subst}
use lxcri.Base.{
  ℕ, String, ◌≡◌, ◌∙◌, ap, Bool, some, List, [], ◌∷◌, ◌<>◌, wrapped, Result, ok, arith,
}
use lxcri.Base.Calls.{Does, then-Does, perform-Does, wrapped-Does}
use lxcri.Base.Host.{
  Host, M, History, Call, mkdir_all, chmod, create_new, close_file, new_container, perform,
  with_error, >>=-eq-ok, wrapped-ok, ◌>>=◌, ◌>>◌,
}
use lxcri.Base.FilePath.{dir}
use lxcri.Oci.{Spec, SpecState, Linux, Root}
use lxcri.Settings.{Runtime}
use lxcri.Specki.Json.{encode_json_file, encode_json_file-ok, file_calls}
use lxcri.Container.{Container, runtime_path}
use lxcri.Container.Status.{spec_state_of}
use lxcri.Runtime.Check.{check_config}
use lxcri.Runtime.Check.Sound.{IsChecked, check_config_sound}
use lxcri.Create.Configure.{configure_container}
use lxcri.Create.Sound.{IsConfigured, configure_container_sound}
use lxcri.Create.Instance.{
  Encoders, with_config_file, clean_container, create_dir, backup_spec, publish, run_start_cmd,
  create,
}
use lxcri.Create.Started.{IsStarted, run_start_cmd-IsStarted}

-- The calls of `create` of container.go
abbrev dir_calls : Container → List Call
dir_calls c =
    mkdir_all c.runtime_dir 511
    ∷ chmod c.runtime_dir 511
    ∷ create_new (runtime_path c "config") 416
    ∷ close_file (runtime_path c "config")
    ∷ new_container c.container_id (dir c.runtime_dir)
    ∷ []

-- The files that hooks read were written, each anew and each directly behind the one before: the spec,
-- which may be copied then, its hooks and the state; directly behind that the container was started.
pub record IsPublished (h : Host) (encode : Encoders) (has_deadline : Bool) (rt : Runtime)
    (c c' : Container) (fuel : ℕ) (w w' : History) : Type 0 where
  pub spec_text : String
  pub has_spec_text : encode.of_spec c.spec ≡ ok spec_text
  pub spec_written : History
  pub writes_spec :
      Does h w (file_calls h (runtime_path c "config.json") spec_text 292) spec_written
  pub backed_up : History
  pub copied : backup_spec h rt c (encode.of_spec c.spec) spec_written ≡ (ok tt, backed_up)
  pub hooks_text : String
  pub has_hooks_text : encode.of_hooks c.spec.hooks ≡ ok hooks_text
  pub hooks_written : History
  pub writes_hooks :
      Does h backed_up (file_calls h (runtime_path c "hooks.json") hooks_text 292) hooks_written
  pub state : SpecState
  pub state_shown : spec_state_of h c hooks_written ≡ (ok state, hooks_written)
  pub state_text : String
  pub has_state_text : encode.of_state state ≡ ok state_text
  pub state_written : History
  pub writes_state :
      Does h hooks_written (file_calls h (runtime_path c "state.json") state_text 292) state_written
  pub started : IsStarted h encode has_deadline rt c c' fuel state_written w'

-- `Create` has checked the spec, made the directory of the container, configured the container with
-- known and distinct namespaces and with its mounts inside its root, cleaned the environment of its
-- process, written its files and started it.
pub record IsCreated (h : Host) (encode : Encoders) (uname : Result String) (cgroup_root : String)
    (has_deadline : Bool) (rt : Runtime) (cfg c' : Container) (fuel : ℕ) (w w' : History)
    : Type 0 where
  pub spec : Spec
  pub checked : IsChecked h w cfg.container_id cfg.spec spec
  pub made : History
  pub makes : Does h w (dir_calls (with_config_file rt cfg spec)) made
  pub configured : Container
  pub configured_at : History
  pub root : Root
  pub given : Linux
  pub has_root : (with_config_file rt cfg spec).spec.root ≡ some root
  pub has_linux : (with_config_file rt cfg spec).spec.linux ≡ some given
  pub configures :
      IsConfigured h uname cgroup_root rt
        (with_config_file rt cfg spec)
        configured
        root
        given
        made
        configured_at
  pub published :
      IsPublished h encode has_deadline rt (clean_container configured) c' fuel configured_at w'

module _ (h : Host) where
  create_dir-ok :
      (c : Container) (w w' : History) → create_dir h c w ≡ (ok tt, w') → Does h w (dir_calls c) w'
  unfolding create_dir
  create_dir-ok c w w' e =
      let path : String = runtime_path c "config" in
      let handle : M (Unit {0}) = perform h (new_container c.container_id (dir c.runtime_dir)) in
      let close : M (Unit {0}) =
        with_error (wrapped "failed to close empty config tmpfile") (perform h (close_file path)) in
      let mode : M (Unit {0}) =
        with_error (wrapped ("failed to chmod " <> c.runtime_dir))
          (perform h (chmod c.runtime_dir 511)) in
      let make : M (Unit {0}) =
        with_error (wrapped "failed to create container dir")
          (perform h (mkdir_all c.runtime_dir 511)) in
      let from_create : M (Unit {0}) = perform h (create_new path 416) >> (close >> handle) in
      let (_, w₁, made, e₁) = >>=-eq-ok make (λ _. mode >> from_create) w e in
      let (_, w₂, moded, e₂) = >>=-eq-ok mode (λ _. from_create) w₁ e₁ in
      let (_, w₃, created, e₃) =
        >>=-eq-ok (perform h (create_new path 416)) (λ _. close >> handle) w₂ e₂ in
      let (_, w₄, closed, e₄) = >>=-eq-ok close (λ _. handle) w₃ e₃ in
      then-Does h w w₁ w' (mkdir_all c.runtime_dir 511 ∷ []) _
        (wrapped-Does h (wrapped "failed to create container dir") _ w w₁ made)
        (then-Does h w₁ w₂ w' (chmod c.runtime_dir 511 ∷ []) _
          (wrapped-Does h (wrapped ("failed to chmod " <> c.runtime_dir)) _ w₁ w₂ moded)
          (then-Does h w₂ w₃ w' (create_new path 416 ∷ []) _
            (perform-Does h (create_new path 416) w₂ w₃ created)
            (then-Does h w₃ w₄ w' (close_file path ∷ []) _
              (wrapped-Does h (wrapped "failed to close empty config tmpfile") _ w₃ w₄ closed)
              (perform-Does h (new_container c.container_id (dir c.runtime_dir)) w₄ w' e₄))))

  spec_state_of-ok :
      (c : Container) (state : SpecState) (w v : History)
      → spec_state_of h c w ≡ (ok state, v)
      → v ≡ w
  unfolding spec_state_of
  spec_state_of-ok c state w v e = ground arith

  module _ (encode : Encoders) (has_deadline : Bool) (rt : Runtime) where
    publish-IsPublished :
        (c c' : Container) (fuel : ℕ) (w w' : History)
        → publish h encode has_deadline rt c fuel w ≡ (ok c', w')
        → IsPublished h encode has_deadline rt c c' fuel w w'
    unfolding publish
    publish-IsPublished c c' fuel w w' e =
        let run : M Container =
          with_error (wrapped "failed to run container process")
            (run_start_cmd h encode has_deadline rt c fuel) in
        let put_state : SpecState → M (Unit {0}) =
          λ s. encode_json_file h (runtime_path c "state.json") (encode.of_state s) 292 in
        let put_hooks : M (Unit {0}) =
          encode_json_file h (runtime_path c "hooks.json") (encode.of_hooks c.spec.hooks) 292 in
        let put_spec : M (Unit {0}) =
          encode_json_file h (runtime_path c "config.json") (encode.of_spec c.spec) 292 in
        let show : M Container = spec_state_of h c >>= λ s. put_state s >> run in
        let backup : M (Unit {0}) = backup_spec h rt c (encode.of_spec c.spec) in
        let (_, w₁, spec_put, e₁) = >>=-eq-ok put_spec (λ _. backup >> (put_hooks >> show)) w e in
        let (_, w₂, copying, e₂) = >>=-eq-ok backup (λ _. put_hooks >> show) w₁ e₁ in
        let (_, w₃, hooks_put, e₃) = >>=-eq-ok put_hooks (λ _. show) w₂ e₂ in
        let (s, w₄, shown, e₄) = >>=-eq-ok (spec_state_of h c) (λ s. put_state s >> run) w₃ e₃ in
        let (_, w₅, state_put, e₅) = >>=-eq-ok (put_state s) (λ _. run) w₄ e₄ in
        let (t₁, has₁, does₁) =
          encode_json_file-ok h (runtime_path c "config.json") (encode.of_spec c.spec) 292 w w₁
            spec_put in
        let (t₂, has₂, does₂) =
          encode_json_file-ok h (runtime_path c "hooks.json") (encode.of_hooks c.spec.hooks) 292 w₂
            w₃ hooks_put in
        let (t₃, has₃, does₃) =
          encode_json_file-ok h (runtime_path c "state.json") (encode.of_state s) 292 w₄ w₅
            state_put in
        let quiet : w₄ ≡ w₃ = spec_state_of-ok c s w₃ w₄ shown in
        record {
          spec_text = t₁;
          has_spec_text = has₁;
          spec_written = w₁;
          writes_spec = does₁;
          backed_up = w₂;
          copied = copying;
          hooks_text = t₂;
          has_hooks_text = has₂;
          hooks_written = w₃;
          writes_hooks = does₂;
          state = s;
          state_shown = shown ∙ ap (λ v. (ok s, v)) quiet;
          state_text = t₃;
          has_state_text = has₃;
          state_written = w₅;
          writes_state =
              subst (λ v. Does h v (file_calls h (runtime_path c "state.json") t₃ 292) w₅) quiet
                does₃;
          started = run_start_cmd-IsStarted h encode has_deadline rt c c' fuel w₅ w' (
              wrapped-ok (wrapped "failed to run container process")
                (run_start_cmd h encode has_deadline rt c fuel w₅) c' w' e₅);
        }

    -- If `Create` succeeds, `IsCreated` holds: the spec passed `checkConfig`; the runtime directory was
    -- made and the file `config` in it created anew before the container was configured; the namespaces
    -- that were configured are known and distinct, and every mount of the container was written, to a
    -- path that starts with the root's; behind that, config.json, hooks.json and state.json were written,
    -- in this order and each anew, then the liblxc configuration was saved and the monitor started, then
    -- lxcri.json was written with the PID of the monitor; and at the end the monitor runs and the
    -- container is in state `created`.
    pub create_sound :
        (uname : Result String) (cgroup_root : String) (cfg c' : Container) (fuel : ℕ)
        (w w' : History)
        → create h encode uname cgroup_root has_deadline rt cfg fuel w ≡ (ok c', w')
        → IsCreated h encode uname cgroup_root has_deadline rt cfg c' fuel w w'
    unfolding create
    create_sound uname cgroup_root cfg c' fuel w w' e =
        let conf : Spec → M Container = λ spec.
          with_error (wrapped "failed to configure container")
            (configure_container h uname cgroup_root rt (with_config_file rt cfg spec)) in
        let make : Spec → M (Unit {0}) = λ spec.
          with_error (wrapped "failed to create container")
            (create_dir h (with_config_file rt cfg spec)) in
        let close : Container → M Container =
          λ x. publish h encode has_deadline rt (clean_container x) fuel in
        let (spec, w₁, checked, e₁) =
          >>=-eq-ok (check_config h cfg.container_id cfg.spec)
            (λ spec. make spec >> (conf spec >>= close)) w e in
        let (_, w₂, made, e₂) = >>=-eq-ok (make spec) (λ _. conf spec >>= close) w₁ e₁ in
        let (x, w₃, configured, e₃) = >>=-eq-ok (conf spec) close w₂ e₂ in
        let c : Container = with_config_file rt cfg spec in
        let (sound, quiet) = check_config_sound h cfg.container_id cfg.spec spec w w₁ checked in
        let (root, given, has_root, has_linux, configures) =
          configure_container_sound h uname cgroup_root rt c x w₂ w₃ (
            wrapped-ok (wrapped "failed to configure container")
              (configure_container h uname cgroup_root rt c w₂) x w₃ configured) in
        record {
          spec = spec;
          checked = sound;
          made = w₂;
          makes =
              subst (λ v. Does h v (dir_calls c) w₂) quiet
                (create_dir-ok c w₁ w₂ (
                  wrapped-ok (wrapped "failed to create container") (create_dir h c w₁) tt w₂
                    made));
          configured = x;
          configured_at = w₃;
          root = root;
          given = given;
          has_root = has_root;
          has_linux = has_linux;
          configures = configures;
          published = publish-IsPublished (clean_container x) c' fuel w₃ w' e₃;
        }
