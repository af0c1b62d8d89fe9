-- ===== src/Hooks/Register.antt =====
-- Which lxc hooks `configureHooks` registers.
use lxcri.Base.{
  String, ◌≡◌, refl, not, ◌||◌, Option, List, [], ◌∷◌, ◌++◌, append_assoc, ok, is_empty,
}
use lxcri.Base.Host.{Host, Call, History, set_config_item, IsCompliant}
use lxcri.Config.{item_if, set_item_compliant, when-set_item}
use lxcri.Oci.{Hooks}
use lxcri.Hooks.{merge_hooks, register_hooks, configure_hooks}

-- The lxc hooks that a set of OCI hooks needs.
abbrev registered : String → Hooks → List Call
registered exec hooks =
    set_config_item "lxc.hook.version" "1"
    ∷ (item_if (not (is_empty (hooks.prestart ++ hooks.create_runtime))) "lxc.hook.pre-mount" exec
        ++ (item_if (not (is_empty hooks.create_container)) "lxc.hook.mount" exec
            ++ item_if (not (is_empty hooks.start_container)) "lxc.hook.start" exec))

is_empty-append {ℓ} :
    {A : Type ℓ} (xs ys : List A)
    → (not (is_empty xs) || not (is_empty ys)) ≡ not (is_empty (xs ++ ys))
is_empty-append [] ys = refl
is_empty-append (x ∷ xs) ys = refl

register_hooks_lem :
    (h : Host) (exec : String) (hooks : Hooks) (w : History)
    → IsCompliant h
    → register_hooks h exec hooks w ≡ (ok tt, w ++ registered exec hooks)
unfolding register_hooks
register_hooks_lem h exec hooks w quiet =
    rw
      (
        set_item_compliant h quiet,
        when-set_item h quiet,
        when-set_item h quiet,
        when-set_item h quiet,
        is_empty-append,
        register_hooks,
      )
      (simp append_assoc)

-- On a host that refuses no item, `configureHooks` stores the hooks of the runtime followed by those of
-- the container, and registers the hook program: for pre-mount exactly if there is a prestart or
-- createRuntime hook, for mount exactly if there is a createContainer hook, and for start exactly if
-- there is a startContainer hook.
pub configure_hooks_lem :
    (h : Host) (exec : String) (rt : Hooks) (spec : Option Hooks) (w : History)
    → IsCompliant h
    → configure_hooks h exec rt spec w
      ≡ (ok (merge_hooks rt spec), w ++ registered exec (merge_hooks rt spec))
unfolding configure_hooks
configure_hooks_lem h exec rt spec w quiet =
    rw (register_hooks_lem h exec (merge_hooks rt spec) w quiet) refl
