-- ===== src/Spec/Accepted.antt =====
-- What a config file that is accepted stands for.
use mathlib.Core.Bool.{false≢true}
use mathlib.Core.Option.{some-injective, none-ne-some}
use cc_oci_runtime.Prelude.{
  ◌≡◌, refl, sym, ap, ◌∙◌, Bool, true, false, Option, none, some, List, Bytes,
}
use mathlib.Core.Path.{subst}
use cc_oci_runtime.StateFile.Json.{Node, Nodes, node, nil, cons, children}
use cc_oci_runtime.Spec.{Spec, SpecSystem}
use cc_oci_runtime.Spec.Sections.{
  SpecHandler, handle_section_of, find_handler, plain_member, process_nodes, process_config,
}
use cc_oci_runtime.Spec.Valid.{
  IsValid, AllKept, Accepts, plain_member-AllKept, handle_section_of-Accepts,
}

-- A section for which there is a handler stands in the file.
pub data HasSection (handlers : List SpecHandler) (h : SpecHandler) : Nodes → Type 0 where
  here :
      (name : Bytes) (below ns : Nodes)
      → find_handler name handlers ≡ some h
      → HasSection handlers h (cons (node (some name) below) ns)
  later : (n : Node) (ns : Nodes) → HasSection handlers h ns → HasSection handlers h (cons n ns)

-- What the walk keeps, and what it finds.
abbrev Found : SpecSystem → List SpecHandler → Nodes → Spec → Spec → Type 0
Found sys handlers ns s t =
    AllKept sys s t × ((h : SpecHandler) → HasSection handlers h ns → IsValid sys h t)

-- A member with no handler.
skipped :
    {sys : SpecSystem} {handlers : List SpecHandler} (name : Bytes) (below ns : Nodes)
    (s u t : Spec)
    → find_handler name handlers ≡ none
    → AllKept sys s u
    → Found sys handlers ns u t
    → Found sys handlers (cons (node (some name) below) ns) s t
skipped {sys} {handlers} name below ns s u t e k (kept, found) = (λ h v. kept h (k h v), by_place)
  where
    by_place :
        (h : SpecHandler)
        → HasSection handlers h (cons (node (some name) below) ns)
        → IsValid sys h t
    by_place h (here _ _ _ f) = absurd (none-ne-some h (sym e ∙ f))
    by_place h (later _ _ f) = found h f

-- A member with a handler.
handled :
    {sys : SpecSystem} {handlers : List SpecHandler} (name : Bytes) (below ns : Nodes)
    (h : SpecHandler) (s u r t : Spec)
    → find_handler name handlers ≡ some h
    → AllKept sys s u
    → Accepts sys h u r
    → Found sys handlers ns r t
    → Found sys handlers (cons (node (some name) below) ns) s t
handled {sys} {handlers} name below ns h s u r t e k a (kept, found) =
    (λ j v. kept j (a.0 j (k j v)), by_place)
  where
    by_place :
        (j : SpecHandler)
        → HasSection handlers j (cons (node (some name) below) ns)
        → IsValid sys j t
    by_place j (here _ _ _ f) =
        subst (λ i. IsValid sys i t) (some-injective h j (sym e ∙ f)) (kept h a.1)
    by_place j (later _ _ f) = found j f

-- A member without a name.
unnamed :
    {sys : SpecSystem} {handlers : List SpecHandler} (below ns : Nodes) (s t : Spec)
    → Found sys handlers ns s t
    → Found sys handlers (cons (node none below) ns) s t
unnamed {sys} {handlers} below ns s t (kept, found) = (kept, by_place)
  where
    by_place :
        (h : SpecHandler) → HasSection handlers h (cons (node none below) ns) → IsValid sys h t
    by_place h (later _ _ f) = found h f

end_of :
    {sys : SpecSystem} {handlers : List SpecHandler} (s t : Spec)
    → s ≡ t
    → Found sys handlers nil s t
end_of {sys} {handlers} s t e = (λ h v. subst (IsValid sys h) e v, none_left)
  where
    none_left : (h : SpecHandler) → HasSection handlers h nil → IsValid sys h t
    none_left h f = elim f [ ]

process_nodes-Found :
    (sys : SpecSystem) (handlers : List SpecHandler) (ns : Nodes) (s t : Spec)
    → process_nodes sys handlers ns s ≡ some (t, true)
    → Found sys handlers ns s t
unfolding process_nodes
process_nodes-Found sys handlers nil s t e =
    end_of s t (ap (λ q. q.0) (some-injective (s, true) (t, true) e))
process_nodes-Found sys handlers (cons (node none below) ns) s t e =
    unnamed below ns s t (process_nodes-Found sys handlers ns s t e)
process_nodes-Found sys handlers (cons (node (some name) below) ns) s t e =
    by_handler (find_handler name handlers) refl (λ u. process_nodes-Found sys handlers ns u t) e
  where
    u : Spec
    u = plain_member name below s

    rest : SpecHandler → Option (Spec × Bool) → Option (Spec × Bool)
    rest h o = elim o [
      | none ↦ none
      | some r ↦ elim r.1 [ true ↦ process_nodes sys handlers ns r.0 | false ↦ some (r.0, false) ]
    ]

    by_result :
        (h : SpecHandler) (o : Option (Spec × Bool))
        → find_handler name handlers ≡ some h
        → handle_section_of sys h (node (some name) below) u ≡ o
        → ((v : Spec)
            → process_nodes sys handlers ns v ≡ some (t, true)
            → Found sys handlers ns v t)
        → rest h o ≡ some (t, true)
        → Found sys handlers (cons (node (some name) below) ns) s t
    by_result h none f w ih e = absurd (none-ne-some _ e)
    by_result h (some (r, false)) f w ih e =
        absurd (false≢true (ap (λ q. q.1) (some-injective (r, false) (t, true) e)))
    by_result h (some (r, true)) f w ih e =
        handled name below ns h s u r t f (plain_member-AllKept sys name below s)
          (handle_section_of-Accepts sys h (node (some name) below) u r w) (ih r e)

    by_handler :
        (o : Option SpecHandler)
        → find_handler name handlers ≡ o
        → ((v : Spec)
            → process_nodes sys handlers ns v ≡ some (t, true)
            → Found sys handlers ns v t)
        → Path
            (Option (Spec × Bool))
            (elim o as (λ _. Option (Spec × Bool)) [
              | none ↦ process_nodes sys handlers ns u
              | some h ↦ rest h (handle_section_of sys h (node (some name) below) u)
            ])
            (some (t, true))
        → Found sys handlers (cons (node (some name) below) ns) s t
    by_handler none f ih e =
        skipped name below ns s u t f (plain_member-AllKept sys name below s) (ih u e)
    by_handler (some h) f ih e =
        by_result h (handle_section_of sys h (node (some name) below) u) f refl ih e

-- When a config file has been processed with success, each of its sections for which there is a
-- handler holds at the end, in whatever order the sections stand: of the platform, that it is Linux on
-- amd64; of the root, that its path is a directory; of the process, that it has arguments and an
-- absolute working directory; of the machine, that its three files are there. Nothing is said of the
-- other sections.
pub process_config-IsValid :
    (sys : SpecSystem) (handlers : List SpecHandler) (tree : Node) (s t : Spec) (h : SpecHandler)
    → HasSection handlers h (children tree)
    → process_config sys handlers tree s ≡ some (t, true)
    → IsValid sys h t
unfolding process_config
process_config-IsValid sys handlers tree s t h f e =
    (process_nodes-Found sys handlers (children tree) s t e).1 h f
