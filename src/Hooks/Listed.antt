-- ===== src/Hooks/Listed.antt =====
-- What the handler makes of the hooks in a config file.
use cc_oci_runtime.Prelude.{
  ◌≡◌, refl, sym, ap, ap₂, ◌∙◌, true, false, not, Option, none, some, List, [], ◌∷◌, ◌++◌,
  append_assoc, append-nil, Bytes, codes, str_eq, if◌then◌else◌,
}
use cc_oci_runtime.StateFile.Json.{
  object, array, value, text, int64, Members, no_member, member, Elements, no_element, element,
  json_string, parse_aux, parse_members, parse_elements, foreach,
}
use cc_oci_runtime.StateFile.ProcessSection.{node_to_strv}
use cc_oci_runtime.StateFile.Write.{strings}
use cc_oci_runtime.StateFile.Recall.{section, FitsPath, fit_path_lem}
use cc_oci_runtime.StateFile.RecallMounts.{foreach-append_nodes}
use cc_oci_runtime.StateFile.RecallProcess.{IsInt32, to_int32-show_int, node_to_strv-strings}
use cc_oci_runtime.Hooks.{
  Hook, Hooks, HookList, has_path, save_current_hook, blank_hook, hook_member, handle_hook,
  HooksSection, fill_list, with_hooks, handle_hooks_section, hooks_handle_section,
}

abbrev pub IsFilled : Option (List Bytes) → Type 0
IsFilled none = Unit
IsFilled (some []) = ⊥
IsFilled (some (_ ∷ _)) = Unit

-- A hook that a config file can ask for.
pub record IsHook (hook : Hook) : Type 0 where
  pub named : has_path hook ≡ true
  pub fits : FitsPath hook.path
  pub args : IsFilled hook.args
  pub env : IsFilled hook.env
  pub timeout : IsInt32 hook.timeout

-- The members by which a config file asks for it.
abbrev pub vector_member : Bytes → Option (List Bytes) → Members → Members
vector_member key none rest = rest
vector_member key (some ss) rest = member key (array (strings ss)) rest

abbrev pub hook_members : Hook → Members
hook_members hook = member (codes "path") (value (text hook.path)) (
    vector_member (codes "args") hook.args (
      vector_member (codes "env") hook.env
        (member (codes "timeout") (value (int64 hook.timeout)) no_member)))

abbrev pub hooks_json : List Hook → Elements
hooks_json [] = no_element
hooks_json (hook ∷ hooks) = element (object (hook_members hook)) (hooks_json hooks)

abbrev pub AreHooks : List Hook → Type 0
AreHooks [] = Unit
AreHooks (hook ∷ hooks) = IsHook hook × AreHooks hooks

abbrev walking : List Hook → Option Hook → HookList
walking done current = record { hooks = done; current_hook = current; error_detected = false }

args_step :
    (args : Option (List Bytes)) (hook : Hook) (done : List Hook) (rest : Members)
    → hook.args ≡ none
    → IsFilled args
    → foreach handle_hook
        (parse_members (vector_member (codes "args") args rest))
        (walking done (some hook))
      ≡ foreach handle_hook (parse_members rest) (walking done (some (record hook { args = args })))
unfolding foreach handle_hook hook_member str_eq parse_aux strings json_string node_to_strv
args_step none hook done rest e h =
    ap
      (λ a.
        foreach handle_hook (parse_members rest) (walking done (some (record hook { args = a }))))
      e
args_step (some []) hook done rest e h = absurd h
args_step (some (s ∷ ss)) hook done rest e h =
    ap
      (λ a.
        foreach handle_hook (parse_members rest)
          (walking done (some (record hook { args = some (s ∷ a) }))))
      (node_to_strv-strings ss)

env_step :
    (env : Option (List Bytes)) (hook : Hook) (done : List Hook) (rest : Members)
    → hook.env ≡ none
    → IsFilled env
    → foreach handle_hook
        (parse_members (vector_member (codes "env") env rest))
        (walking done (some hook))
      ≡ foreach handle_hook (parse_members rest) (walking done (some (record hook { env = env })))
unfolding foreach handle_hook hook_member str_eq parse_aux strings json_string node_to_strv
env_step none hook done rest e h =
    ap
      (λ a.
        foreach handle_hook (parse_members rest) (walking done (some (record hook { env = a }))))
      e
env_step (some []) hook done rest e h = absurd h
env_step (some (s ∷ ss)) hook done rest e h =
    ap
      (λ a.
        foreach handle_hook (parse_members rest)
          (walking done (some (record hook { env = some (s ∷ a) }))))
      (node_to_strv-strings ss)

-- The hooks so far, with the one that is being filled.
abbrev saves : List Hook → Option Hook → List Hook
saves done none = done
saves done (some hook) = done ++ hook ∷ []

-- A hook that is being filled has a path.
abbrev Named : Option Hook → Type 0
Named none = Unit
Named (some hook) = has_path hook ≡ true

saved :
    (done : List Hook) (current : Option Hook)
    → Named current
    → save_current_hook (walking done current) ≡ walking (saves done current) none
unfolding save_current_hook
saved done none h = refl
saved done (some hook) h =
    ap
      (λ b.
        if b
        then walking (done ++ hook ∷ []) none
        else record (walking done (some hook)) { current_hook = none; error_detected = true })
      h

-- The members of one hook.
members_step :
    (hook : Hook) (done : List Hook)
    → IsHook hook
    → foreach handle_hook (parse_members (hook_members hook)) (walking done none)
      ≡ walking done (some hook)
unfolding foreach handle_hook hook_member str_eq parse_members json_string
members_step hook done h =
    args_step hook.args (record blank_hook { path = _ }) done _ refl h.args
    ∙ env_step hook.env (record blank_hook { path = _; args = hook.args }) done _ refl h.env
    ∙ ap₂
        (λ path timeout.
          walking done
            (some (record { path = path; args = hook.args; env = hook.env; timeout = timeout })))
        (fit_path_lem hook.path h.fits) (to_int32-show_int hook.timeout h.timeout)

foreach-hooks :
    (hooks done : List Hook) (current : Option Hook)
    → AreHooks hooks
    → Named current
    → save_current_hook
        (foreach handle_hook (parse_elements (hooks_json hooks)) (walking done current))
      ≡ walking (saves done current ++ hooks) none
unfolding foreach parse_elements save_current_hook handle_hook
foreach-hooks [] done current h k =
    saved done current k ∙ ap (λ l. walking l none) (sym (append-nil (saves done current)))
foreach-hooks (hook ∷ hooks) done current (h, hs) k =
    ap save_current_hook (
      foreach-append_nodes handle_hook (parse_aux (object (hook_members hook)) true)
        (parse_elements (hooks_json hooks)) (walking done current)
      ∙ ap
          (λ l.
            foreach handle_hook (parse_elements (hooks_json hooks))
              (foreach handle_hook (parse_members (hook_members hook)) l))
          (saved done current k)
      ∙ ap (foreach handle_hook (parse_elements (hooks_json hooks)))
          (members_step hook (saves done current) h))
    ∙ foreach-hooks hooks (saves done current) (some hook) hs h.named
    ∙ ap (λ l. walking l none) (append_assoc (saves done current) (hook ∷ []) hooks)

-- The three lists of a config file.
abbrev pub hooks_members : Hooks → Members
hooks_members hooks = member (codes "prestart") (array (hooks_json hooks.prestart)) (
    member (codes "poststart") (array (hooks_json hooks.poststart))
      (member (codes "poststop") (array (hooks_json hooks.poststop)) no_member))

abbrev pub no_hooks : Hooks
no_hooks = record { prestart = []; poststart = []; poststop = [] }

abbrev reading : Hooks → HooksSection
reading hooks = record { hooks = hooks; left_hook = none; has_error = false }

-- One list, into what the config has of that name.
filled :
    (hooks done : List Hook) (pre : Hooks)
    → AreHooks hooks
    → fill_list (parse_elements (hooks_json hooks)) done (reading pre)
      ≡ walking (done ++ hooks) none
unfolding fill_list
filled hooks done pre h = foreach-hooks hooks done none h tt

prestart_step :
    (hooks : List Hook) (pre : Hooks)
    → AreHooks hooks
    → handle_hooks_section (section (codes "prestart") (array (hooks_json hooks))) (reading pre)
      ≡ reading (record pre { prestart = pre.prestart ++ hooks })
unfolding handle_hooks_section str_eq parse_aux parse_elements
prestart_step [] pre h =
    ap (λ hooks. reading (record pre { prestart = hooks })) (sym (append-nil pre.prestart))
prestart_step (hook ∷ hooks) pre h =
    ap (λ l. with_hooks (record pre { prestart = l.hooks }) l)
      (filled (hook ∷ hooks) pre.prestart pre h)

poststart_step :
    (hooks : List Hook) (pre : Hooks)
    → AreHooks hooks
    → handle_hooks_section (section (codes "poststart") (array (hooks_json hooks))) (reading pre)
      ≡ reading (record pre { poststart = pre.poststart ++ hooks })
unfolding handle_hooks_section str_eq parse_aux parse_elements
poststart_step [] pre h =
    ap (λ hooks. reading (record pre { poststart = hooks })) (sym (append-nil pre.poststart))
poststart_step (hook ∷ hooks) pre h =
    ap (λ l. with_hooks (record pre { poststart = l.hooks }) l)
      (filled (hook ∷ hooks) pre.poststart pre h)

poststop_step :
    (hooks : List Hook) (pre : Hooks)
    → AreHooks hooks
    → handle_hooks_section (section (codes "poststop") (array (hooks_json hooks))) (reading pre)
      ≡ reading (record pre { poststop = pre.poststop ++ hooks })
unfolding handle_hooks_section str_eq parse_aux parse_elements
poststop_step [] pre h =
    ap (λ hooks. reading (record pre { poststop = hooks })) (sym (append-nil pre.poststop))
poststop_step (hook ∷ hooks) pre h =
    ap (λ l. with_hooks (record pre { poststop = l.hooks }) l)
      (filled (hook ∷ hooks) pre.poststop pre h)

-- The hooks that a config file lists as prestart, poststart and poststop are added to those lists of
-- the config, each list in its order, with their paths, arguments, environments and timeouts, if each
-- has a path that fits PATH_MAX, no list of arguments or variables is empty, and the timeouts fit an
-- int.
pub hooks_handle_section-Listed :
    (hooks old : Hooks)
    → AreHooks hooks.prestart
    → AreHooks hooks.poststart
    → AreHooks hooks.poststop
    → hooks_handle_section (section (codes "hooks") (object (hooks_members hooks))) old ≡ (
      record {
        prestart = old.prestart ++ hooks.prestart;
        poststart = old.poststart ++ hooks.poststart;
        poststop = old.poststop ++ hooks.poststop;
      },
      true,
    )
unfolding hooks_handle_section foreach handle_hooks_section parse_aux parse_members
hooks_handle_section-Listed hooks old a b c =
    ap
      (λ s.
        let s' =
          handle_hooks_section (section (codes "poststop") (array (hooks_json hooks.poststop))) (
            handle_hooks_section (section (codes "poststart") (array (hooks_json hooks.poststart)))
              s) in
        (s'.hooks, not s'.has_error))
      (prestart_step hooks.prestart old a)
    ∙ ap
        (λ s.
          let s' =
            handle_hooks_section (section (codes "poststop") (array (hooks_json hooks.poststop)))
              s in
          (s'.hooks, not s'.has_error))
        (poststart_step hooks.poststart _ b)
    ∙ ap (λ s. (s.hooks, not s.has_error)) (poststop_step hooks.poststop _ c)
