-- ===== src/Hooks.antt =====
-- src/spec_handlers/hooks.c: the hooks of a container's config file. The children are about running
-- them, which is done by src/process.c.
pub mod Listed
pub mod Run
pub mod Order
use cc_oci_runtime.Prelude.{
  Bool, true, false, not, Option, none, some, List, [], ◌∷◌, ◌++◌, if◌then◌else◌, ℤ, pos, to_int32,
  Bytes, codes, str_eq, atol,
}
use cc_oci_runtime.Container.Types.{fit_path}
use cc_oci_runtime.StateFile.Json.{Node, Nodes, node, nil, cons, children, foreach}
use cc_oci_runtime.StateFile.ProcessSection.{node_to_strv}

-- struct oci_cfg_hook.
pub record Hook : Type 0 where
  pub path : Bytes
  pub args : Option (List Bytes)
  pub env : Option (List Bytes)
  pub timeout : ℤ

-- struct oci_cfg_hooks.
pub record Hooks : Type 0 where
  pub prestart : List Hook
  pub poststart : List Hook
  pub poststop : List Hook

-- The variables of the file, with the list that is being filled.
pub record HookList : Type 0 where
  pub hooks : List Hook
  pub current_hook : Option Hook
  pub error_detected : Bool

abbrev pub has_path : Hook → Bool
has_path hook = elim hook.path [ [] ↦ false | _ ∷ _ ↦ true ]

unfoldable pub save_current_hook : HookList → HookList
save_current_hook l = elim l.current_hook [
  | none ↦ l
  | some hook ↦
      if has_path hook
      then record l { hooks = l.hooks ++ hook ∷ []; current_hook = none }
      else record l { current_hook = none; error_detected = true }
]

abbrev pub blank_hook : Hook
blank_hook = record { path = []; args = none; env = none; timeout = pos 0 }

abbrev pub hook_or_new : Option Hook → Hook
hook_or_new none = blank_hook
hook_or_new (some hook) = hook

-- "%s" of a NULL pointer.
abbrev text_or_null : Option Bytes → Bytes
text_or_null none = codes "(null)"
text_or_null (some s) = s

-- g_ascii_strtoll gives 0 for NULL, and where there is no number.
abbrev pub timeout_of : Option Bytes → ℤ
timeout_of none = pos 0
timeout_of (some s) = to_int32 (atol s)

-- What a member of a hook, which has children, makes of it.
unfoldable pub hook_member : Bytes → Option Bytes → Nodes → Hook → Hook
unfolding node_to_strv
hook_member name child nodes hook =
    if str_eq name (codes "path")
    then record hook { path = fit_path (text_or_null child) }
    else if str_eq name (codes "args")
    then record hook { args = some (node_to_strv nodes) }
    else if str_eq name (codes "env")
    then record hook { env = some (node_to_strv nodes) }
    else if str_eq name (codes "timeout")
    then record hook { timeout = timeout_of child }
    else hook

unfoldable pub handle_hook : Node → HookList → HookList
unfolding save_current_hook hook_member
handle_hook (node none ns) l = if l.error_detected then l else save_current_hook l
handle_hook (node (some name) nil) l = l
handle_hook (node (some name) (cons (node child below) ns)) l =
    if l.error_detected then l else record l {
      current_hook =
          some (hook_member name child (cons (node child below) ns) (hook_or_new l.current_hook));
    }

-- The hooks of the config, the hook that is left over, and whether there was an error.
pub record HooksSection : Type 0 where
  pub hooks : Hooks
  pub left_hook : Option Hook
  pub has_error : Bool

unfoldable pub fill_list : Nodes → List Hook → HooksSection → HookList
unfolding handle_hook save_current_hook
fill_list nodes hooks s = save_current_hook (
    foreach handle_hook nodes
      (record { hooks = hooks; current_hook = s.left_hook; error_detected = s.has_error }))

abbrev pub with_hooks : Hooks → HookList → HooksSection
with_hooks hooks l = record {
  hooks = hooks;
  left_hook = l.current_hook;
  has_error = l.error_detected;
}

abbrev pub fill_named : Bytes → Nodes → HooksSection → HooksSection
fill_named name nodes s =
    if str_eq name (codes "prestart")
    then (let l = fill_list nodes s.hooks.prestart s in
        with_hooks (record s.hooks { prestart = l.hooks }) l)
    else if str_eq name (codes "poststart")
    then (let l = fill_list nodes s.hooks.poststart s in
        with_hooks (record s.hooks { poststart = l.hooks }) l)
    else if str_eq name (codes "poststop")
    then (let l = fill_list nodes s.hooks.poststop s in
        with_hooks (record s.hooks { poststop = l.hooks }) l)
    else s

unfoldable pub handle_hooks_section : Node → HooksSection → HooksSection
unfolding fill_list
handle_hooks_section (node name nil) s = s
handle_hooks_section (node none (cons n ns)) s = s
handle_hooks_section (node (some name) (cons n ns)) s =
    if s.has_error then s else fill_named name (cons n ns) s

-- The hooks, and the verdict.
unfoldable pub hooks_handle_section : Node → Hooks → Hooks × Bool
unfolding handle_hooks_section
hooks_handle_section n hooks =
    let s =
      foreach handle_hooks_section (children n)
        (record { hooks = hooks; left_hook = none; has_error = false }) in
    (s.hooks, not s.has_error)
