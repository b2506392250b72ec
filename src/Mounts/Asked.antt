-- ===== src/Mounts/Asked.antt =====
-- What the handler makes of the mounts that a config file asks for.
use Prim.Native.Nat.{bit_or}
use cc_oci_runtime.Prelude.{
  ℕ, ◌≡◌, refl, sym, ap, ◌∙◌, Bool, true, false, Option, none, some, List, [], ◌∷◌, ◌++◌,
  append_assoc, append-nil, ◌==◌, if◌then◌else◌, Bytes, codes, str_eq,
}
use cc_oci_runtime.Container.Types.{Mount}
use cc_oci_runtime.StateFile.Json.{
  object, array, value, text, Members, no_member, member, Elements, no_element, element, Node, node,
  json_string, parse_aux, parse_elements, foreach,
}
use cc_oci_runtime.StateFile.Write.{strings}
use cc_oci_runtime.StateFile.RecallMounts.{foreach-append_nodes}
use cc_oci_runtime.StateFile.Recall.{section}
use cc_oci_runtime.Mounts.Section.{
  mount_get_flag_value, Options, handle_options_section, MountsSection, save_current_mount,
  blank_mount, drop_last, opts_of, mount_member, handle_mounts_section, finish_mounts,
  mounts_handle_section,
}

-- A mount of a config file.
pub record MountSpec : Type 0 where
  pub destination : Bytes
  pub kind : Bytes
  pub source : Bytes
  pub options : List Bytes

-- As it is written there.
abbrev pub spec_members : MountSpec → Members
spec_members m = member (codes "destination") (value (text m.destination)) (
    member (codes "type") (value (text m.kind)) (
      member (codes "source") (value (text m.source))
        (member (codes "options") (array (strings m.options)) no_member)))

unfoldable pub spec_elements : List MountSpec → Elements
spec_elements [] = no_element
spec_elements (m ∷ ms) = element (object (spec_members m)) (spec_elements ms)

-- The union of the flags among the options.
unfoldable pub flags_of : ℕ → List Bytes → ℕ
flags_of flags [] = flags
flags_of flags (o ∷ os) =
    flags_of (if mount_get_flag_value o == 0 then flags else bit_or flags (mount_get_flag_value o))
      os

-- The options that are no flags.
unfoldable pub others : List Bytes → List Bytes
others [] = []
others (o ∷ os) = let rest = others os in if mount_get_flag_value o == 0 then o ∷ rest else rest

unfoldable pub comma_separated : Bytes → List Bytes → Bytes
comma_separated o [] = o
comma_separated o (p ∷ os) = o ++ (b',' ∷ comma_separated p os)

abbrev pub joined : List Bytes → Option Bytes
joined [] = none
joined (o ∷ os) = some (comma_separated o os)

-- The mount that it stands for.
abbrev pub spec_mount : MountSpec → Mount
spec_mount m = record {
  flags = flags_of 0 m.options;
  mnt_fsname = some m.source;
  mnt_dir = some m.destination;
  mnt_type = some m.kind;
  mnt_opts = joined (others m.options);
  dest = [];
  ignore_mount = false;
  directory_created = none;
}

commas : List Bytes → Bytes
commas [] = []
commas (o ∷ os) = (o ++ b',' ∷ []) ++ commas os

foreach-options :
    (os : List Bytes) (flags : ℕ) (s : Bytes)
    → foreach handle_options_section (parse_elements (strings os)) (flags, s)
      ≡ (flags_of flags os, s ++ commas (others os))
unfolding foreach parse_elements parse_aux strings flags_of others commas handle_options_section
    json_string
foreach-options [] flags s = ap (λ t. (flags, t)) (sym (append-nil s))
foreach-options (o ∷ os) flags s =
    of_flag (mount_get_flag_value o == 0) (foreach-options os flags (s ++ (o ++ b',' ∷ [])))
      (foreach-options os (bit_or flags (mount_get_flag_value o)) s)
  where
    walk : Options → Options
    walk = foreach handle_options_section (parse_elements (strings os))

    of_flag :
        (b : Bool)
        → walk (flags, s ++ (o ++ b',' ∷ []))
          ≡ (flags_of flags os, (s ++ (o ++ b',' ∷ [])) ++ commas (others os))
        → walk (bit_or flags (mount_get_flag_value o), s)
          ≡ (flags_of (bit_or flags (mount_get_flag_value o)) os, s ++ commas (others os))
        → walk (
            if b
            then (flags, s ++ (o ++ b',' ∷ []))
            else (bit_or flags (mount_get_flag_value o), s))
          ≡ (
            flags_of (if b then flags else bit_or flags (mount_get_flag_value o)) os,
            s ++ commas (if b then o ∷ others os else others os),
          )
    of_flag true h k =
        h ∙ ap (λ t. (flags_of flags os, t)) (append_assoc s (o ++ b',' ∷ []) (commas (others os)))
    of_flag false h k = k

drop_last-append : (s t : Bytes) (c : ℕ) → drop_last (s ++ (c ∷ t)) ≡ s ++ drop_last (c ∷ t)
unfolding drop_last
drop_last-append [] t c = refl
drop_last-append (x ∷ []) t c = refl
drop_last-append (x ∷ y ∷ s) t c = ap (◌∷◌ x) (drop_last-append (y ∷ s) t c)

drop_last-cons :
    (c : ℕ) (p t : Bytes)
    → drop_last (c ∷ ((p ++ b',' ∷ []) ++ t)) ≡ c ∷ drop_last ((p ++ b',' ∷ []) ++ t)
unfolding drop_last
drop_last-cons c [] t = refl
drop_last-cons c (x ∷ p) t = refl

drop_last-commas :
    (o : Bytes) (os : List Bytes) → drop_last (commas (o ∷ os)) ≡ comma_separated o os
unfolding commas comma_separated drop_last
drop_last-commas o [] =
    ap drop_last (append-nil (o ++ b',' ∷ [])) ∙ drop_last-append o [] b',' ∙ append-nil o
drop_last-commas o (p ∷ os) =
    ap drop_last (append_assoc o (b',' ∷ []) (commas (p ∷ os)))
    ∙ drop_last-append o (commas (p ∷ os)) b','
    ∙ ap (◌++◌ o) (drop_last-cons b',' p (commas os) ∙ ap (◌∷◌ b',') (drop_last-commas p os))

opts_of-commas : (os : List Bytes) → opts_of (commas os) none ≡ joined os
unfolding commas
opts_of-commas [] = refl
opts_of-commas (o ∷ os) = filled o ∙ ap some (drop_last-commas o os)
  where
    filled :
        (p : Bytes)
        → opts_of ((p ++ b',' ∷ []) ++ commas os) none
          ≡ some (drop_last ((p ++ b',' ∷ []) ++ commas os))
    filled [] = refl
    filled (x ∷ p) = refl

abbrev pending : Option MountSpec → Option Mount
pending none = none
pending (some m) = some (spec_mount m)

-- A walk over the list, with no error so far.
abbrev walking : List Mount → Option MountSpec → MountsSection
walking done current = record {
  mounts = done;
  current_mount = pending current;
  error_detected = false;
}

abbrev saves : List Mount → Option MountSpec → List Mount
saves done none = done
saves done (some m) = done ++ spec_mount m ∷ []

-- The mount, before its options.
abbrev begun : MountSpec → Mount
begun m = record blank_mount {
  mnt_dir = some m.destination;
  mnt_type = some m.kind;
  mnt_fsname = some m.source;
}

abbrev options_node : List Bytes → Node
options_node os = node (some (codes "options")) (parse_elements (strings os))

abbrev put_options : List Mount → MountSpec → ℕ → Option Bytes → MountsSection
put_options done m flags opts = record {
  mounts = done;
  current_mount = some (record (begun m) { flags = flags; mnt_opts = opts });
  error_detected = false;
}

options_step :
    (m : MountSpec) (os : List Bytes) (done : List Mount)
    → os ≡ m.options
    → handle_mounts_section
        (options_node os)
        (record { mounts = done; current_mount = some (begun m); error_detected = false })
      ≡ walking done (some m)
unfolding handle_mounts_section mount_member str_eq parse_elements parse_aux strings flags_of others
options_step m [] done e = ap (λ os. put_options done m (flags_of 0 os) (joined (others os))) e
options_step m (o ∷ os) done e =
    ap (λ r. put_options done m r.0 (opts_of r.1 none)) (foreach-options (o ∷ os) 0 [])
    ∙ ap (put_options done m (flags_of 0 (o ∷ os))) (opts_of-commas (others (o ∷ os)))
    ∙ ap (λ os. put_options done m (flags_of 0 os) (joined (others os))) e

foreach-spec :
    (m : MountSpec) (done : List Mount) (current : Option MountSpec)
    → foreach handle_mounts_section
        (parse_aux (object (spec_members m)) true)
        (walking done current)
      ≡ walking (saves done current) (some m)
unfolding foreach handle_mounts_section mount_member parse_aux json_string save_current_mount str_eq
foreach-spec m done none = options_step m m.options done refl
foreach-spec m done (some old) = options_step m m.options (done ++ spec_mount old ∷ []) refl

unfoldable pub spec_mounts : List MountSpec → List Mount
spec_mounts [] = []
spec_mounts (m ∷ ms) = spec_mount m ∷ spec_mounts ms

foreach-specs :
    (ms : List MountSpec) (done : List Mount) (current : Option MountSpec)
    → finish_mounts
        (foreach handle_mounts_section (parse_elements (spec_elements ms)) (walking done current))
      ≡ (saves done current ++ spec_mounts ms, true)
unfolding foreach spec_elements spec_mounts parse_elements save_current_mount
foreach-specs [] done none = ap (λ ms. (ms, true)) (sym (append-nil done))
foreach-specs [] done (some m) =
    ap (λ ms. (ms, true)) (sym (append-nil (done ++ spec_mount m ∷ [])))
foreach-specs (m ∷ ms) done current =
    ap finish_mounts (
      foreach-append_nodes handle_mounts_section (parse_aux (object (spec_members m)) true)
        (parse_elements (spec_elements ms)) (walking done current)
      ∙ ap (foreach handle_mounts_section (parse_elements (spec_elements ms)))
          (foreach-spec m done current))
    ∙ foreach-specs ms (saves done current) (some m)
    ∙ ap (λ all. (all, true))
        (append_assoc (saves done current) (spec_mount m ∷ []) (spec_mounts ms))

-- The mounts that a config file asks for are the config's, in order, if it has none yet: each with its
-- destination, type and source, with the union of the flags among its options as flags, and with the
-- other options, separated by commas, as options, or none if there are none.
pub mounts_handle_section-spec_mounts :
    (ms : List MountSpec)
    → mounts_handle_section (section (codes "mounts") (array (spec_elements ms))) []
      ≡ (spec_mounts ms, true)
unfolding mounts_handle_section parse_aux
mounts_handle_section-spec_mounts ms = foreach-specs ms [] none
