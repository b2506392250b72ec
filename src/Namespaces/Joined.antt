-- ===== src/Namespaces/Joined.antt =====
-- What the namespaces of a config file make the runtime do.
use cc_oci_runtime.Prelude.{
  ◌≡◌, refl, ap, sym, Bool, true, false, not, Option, none, some, List, [], ◌∷◌, if◌then◌else◌,
  codes, arith,
}
use mathlib.Core.Path.{subst}
use mathlib.Core.Bool.{false≢true}
use cc_oci_runtime.StateFile.Json.{object, array, no_member, member, Elements}
use cc_oci_runtime.StateFile.Recall.{section}
use cc_oci_runtime.Namespaces.{
  Namespace, ns_invalid, NamespaceCfg, NsCall, NsAnswers, ns_enter, is_supported, same_namespace,
  ns_setup,
}
use cc_oci_runtime.Namespaces.Linux.{linux_handle_section}
use cc_oci_runtime.Namespaces.Listed.{Listed, linux_handle_section-Listed}

-- The network and mount namespaces of a list.
unfoldable pub wanted : List NamespaceCfg → List NamespaceCfg
wanted [] = []
wanted (ns ∷ rest) = let later = wanted rest in if is_supported ns.kind then ns ∷ later else later

-- Entering namespaces one after the other, up to the first that is refused.
pub data Enters (a : NsAnswers) : List NamespaceCfg → List NsCall × Bool → Type 0 where
  all_entered : Enters a [] ([], true)
  enters :
      (ns : NamespaceCfg) (call : NsCall) (rest : List NamespaceCfg) (calls : List NsCall)
      (ok : Bool)
      → ns_enter a ns ≡ some call
      → Enters a rest (calls, ok)
      → Enters a (ns ∷ rest) (call ∷ calls, ok)
  is_refused :
      (ns : NamespaceCfg) (rest : List NamespaceCfg)
      → ns_enter a ns ≡ none
      → Enters a (ns ∷ rest) ([], false)

supported-valid :
    (kind : Namespace) → is_supported kind ≡ true → same_namespace kind ns_invalid ≡ false
supported-valid kind h = ground arith

entered :
    (a : NsAnswers) (ns : NamespaceCfg) (rest : List NamespaceCfg) (later : List NsCall × Bool)
    (o : Option NsCall)
    → ns_enter a ns ≡ o
    → Enters a rest later
    → Enters a (ns ∷ rest) (elim o [ none ↦ ([], false) | some call ↦ (call ∷ later.0, later.1) ])
entered a ns rest later none e t = is_refused ns rest e
entered a ns rest (calls, ok) (some call) e t = enters ns call rest calls ok e t

ns_setup-Enters : (a : NsAnswers) (nss : List NamespaceCfg) → Enters a (wanted nss) (ns_setup a nss)
unfolding wanted ns_setup
ns_setup-Enters a [] = all_entered
ns_setup-Enters a (ns ∷ rest) =
    choose (is_supported ns.kind) (same_namespace ns.kind ns_invalid) (supported-valid ns.kind)
      (ns_setup-Enters a rest)
  where
    later : List NsCall × Bool
    later = ns_setup a rest

    choose :
        (supported is_invalid : Bool)
        → (supported ≡ true → is_invalid ≡ false)
        → Enters a (wanted rest) later
        → Enters a (if supported then ns ∷ wanted rest else wanted rest) (
            if is_invalid then later else if not supported then later else elim (ns_enter a ns) [
              | none ↦ ([], false)
              | some call ↦ (call ∷ later.0, later.1)
            ])
    choose true true h t = absurd (false≢true (sym (h refl)))
    choose false true h t = t
    choose false false h t = t
    choose true false h t = entered a ns (wanted rest) later (ns_enter a ns) refl t

-- The namespaces that a config file asks for, if all of them have known types and no path is empty,
-- are the config's, in order, each with its type and its path; and the runtime then enters the
-- network and mount namespaces among them, in order and no others, up to the first that it is
-- refused, which makes it fail.
pub ns_setup-linux_handle_section :
    (a : NsAnswers) (nss : List NamespaceCfg) (es : Elements)
    → Listed nss es
    → (linux_handle_section
          (section (codes "linux") (object (member (codes "namespaces") (array es) no_member)))
          []
        ≡ (nss, true))
      × Enters a (wanted nss) (
          ns_setup a
            (linux_handle_section
              (section (codes "linux") (object (member (codes "namespaces") (array es) no_member)))
              []).0)
ns_setup-linux_handle_section a nss es t =
    let e = linux_handle_section-Listed nss [] es t in
    (
      e,
      subst (λ found. Enters a (wanted nss) (ns_setup a found)) (ap (λ r. r.0) (sym e))
          (ns_setup-Enters a nss),
    )
