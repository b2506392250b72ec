-- ===== src/Hypervisor/Made.antt =====
-- The arguments of the hypervisor that a file makes.
use cc_oci_runtime.Prelude.{
  ℕ, ◌-◌, ◌<◌, ◌≡◌, refl, ap, ◌∙◌, true, false, not, ◌||◌, Option, none, some, List, [], ◌∷◌, ◌++◌,
  ◌==◌, if◌then◌else◌, Bytes, length, arith, ◌>>=◌,
}
use cc_oci_runtime.Container.Types.{VmCfg, Proxy, Config}
use cc_oci_runtime.Mounts.Mounting.{get_workload_dir}
use cc_oci_runtime.Hypervisor.Lines.{
  is_blank, is_absolute, file_to_strv, line_max, ascii_isspace, cut_comment, uncomment, strip_left,
  strip_right, strstrip,
}
use cc_oci_runtime.Hypervisor.Tags.{Tag, HypervisorAnswers, with_sockets, special_tags}
use cc_oci_runtime.Hypervisor.Args.{
  replace_tags, expand_arg, expand_args, expand_lines, expand_cmdline, nonempty_lines, strip_all,
  vm_args_get,
}
use cc_oci_runtime.Hypervisor.Plain.{
  IsPlain, AreTags, IsSpace, AllMake, replace_tags-plain, expand_args-AllMake,
}

special_tags-AreTags :
    (a : HypervisorAnswers) (config : Config) (vm : VmCfg) (workload_dir : Bytes) (size : ℕ)
    (hostname : Option Bytes)
    → AreTags (special_tags a config vm workload_dir size hostname)
unfolding special_tags
special_tags-AreTags a config vm workload_dir size hostname = (
  (_, refl),
  (
    (_, refl),
    (
      (_, refl),
      (
        (_, refl),
        (
          (_, refl),
          (
            (_, refl),
            (
              (_, refl),
              ((_, refl), ((_, refl), ((_, refl), ((_, refl), ((_, refl), ((_, refl), tt)))))),
            ),
          ),
        ),
      ),
    ),
  ),
)

then_some :
    {A B : Type 0} {m : Option A} (f : A → Option B) {x : A} {y : B}
    → m ≡ some x
    → f x ≡ some y
    → (m >>= f) ≡ some y
then_some f e h = ap (λ m. m >>= f) e ∙ h

-- What the command line needs: the parts of the config, and the files.
pub record IsReady (a : HypervisorAnswers) (config : Config) : Type 0 where
  pub vm : VmCfg
  pub has_vm : config.vm ≡ some vm
  pub bundle_path : Bytes
  pub has_bundle : config.bundle_path ≡ some bundle_path
  pub proxy : Proxy
  pub has_proxy : config.proxy ≡ some proxy
  pub size : ℕ
  pub has_image : a.image_size ≡ some size
  pub files :
      (is_blank vm.image_path
        || (is_blank vm.kernel_path
            || (not a.kernel_found
                || (is_blank (get_workload_dir config) || not a.workload_found))))
      ≡ false

expand_cmdline-IsReady :
    (a : HypervisorAnswers) (hostname : Option Bytes) (config : Config) (args : List Bytes)
    → IsReady a config
    → (tags : List Tag) × AreTags tags
      × (expand_cmdline a hostname config args
          ≡ some (
            record config { proxy = some (with_sockets a config) },
            expand_lines a.find_program tags args,
          ))
unfolding expand_cmdline
expand_cmdline-IsReady a hostname config args r =
    let tags = special_tags a config r.vm (get_workload_dir config) r.size hostname in
    (
      tags,
      special_tags-AreTags a config r.vm (get_workload_dir config) r.size hostname,
      then_some _ r.has_vm (
          then_some _ r.has_bundle (
            then_some _ r.has_proxy (
              then_some _ r.has_image (
                ap
                  (λ b.
                    if b
                    then none
                    else some (
                      record config { proxy = some (with_sockets a config) },
                      expand_lines a.find_program tags args,
                    ))
                  r.files)))),
    )

-- The first line of a file is an absolute path.
abbrev pub HasCommand : List Bytes → Type 0
HasCommand [] = Unit
HasCommand (line ∷ _) = is_absolute line ≡ true

find_command_lem :
    (find_program : Bytes → Option Bytes) (tags : List Tag) (lines : List Bytes)
    → HasCommand lines
    → expand_lines find_program tags lines ≡ expand_args tags lines
unfolding expand_lines expand_args
find_command_lem find_program tags [] h = refl
find_command_lem find_program tags (line ∷ lines) h =
    ap
      (λ b.
        expand_args tags
          ((if b then line else elim (find_program line) [ none ↦ line | some cmd ↦ cmd ]) ∷ lines))
      h

-- When the config and the files are there, and the lines of the file are a command with an absolute
-- path and lines that are all empty, comments, or plain text with or without a comment behind it, the
-- hypervisor's arguments are the plain texts, in order, followed by the extra ones, and the proxy gets
-- its sockets.
pub vm_args_get-AllMake :
    (a : HypervisorAnswers) (hostname args_file : Option Bytes) (contents : Bytes → Option Bytes)
    (config : Config) (extra lines args : List Bytes)
    → IsReady a config
    → file_to_strv contents args_file ≡ some lines
    → HasCommand lines
    → AllMake lines args
    → vm_args_get a hostname contents args_file config extra
      ≡ some (record config { proxy = some (with_sockets a config) }, args ++ strip_all extra)
unfolding vm_args_get
vm_args_get-AllMake a hostname args_file contents config extra lines args r f cmd m =
    let (tags, t, made) = expand_cmdline-IsReady a hostname config lines r in
    then_some _ f (
      then_some _ made (
        ap
          (λ l. some (
            record config { proxy = some (with_sockets a config) },
            nonempty_lines l ++ strip_all extra,
          ))
          (find_command_lem a.find_program tags lines cmd)
        ∙ ap
            (λ l.
              some (record config { proxy = some (with_sockets a config) }, l ++ strip_all extra))
            (expand_args-AllMake tags lines args t m)))

IsSpace-IsPlain : (s : Bytes) → IsSpace s → IsPlain s
IsSpace-IsPlain [] h = tt
IsSpace-IsPlain (c ∷ s) h = ((ground (arith, h.0), ground (arith, h.0)), IsSpace-IsPlain s h.1)

cut_comment-space :
    (before budget : ℕ) (s c' : Bytes)
    → ascii_isspace before ≡ true
    → IsSpace s
    → length s < budget
    → cut_comment before budget (s ++ (b'#' ∷ c')) ≡ s
unfolding cut_comment
cut_comment-space before budget [] c' b h k = ground (arith, b)
cut_comment-space before budget (c ∷ s) c' b h k =
    ground (arith, cut_comment-space c (budget - 1) s c' h.0 h.1, h.0)

strip_left-IsSpace : (s : Bytes) → IsSpace s → strip_left s ≡ []
unfolding strip_left
strip_left-IsSpace [] h = refl
strip_left-IsSpace (c ∷ s) h =
    ap (λ b. if b then strip_left s else c ∷ s) h.0 ∙ strip_left-IsSpace s h.1

-- A comment with space in front of it is no empty line: wherever the space is not longer than the
-- function looks, it makes an empty argument for the hypervisor.
pub nonempty_lines-expand_arg_indented :
    (tags : List Tag) (c : ℕ) (s c' : Bytes) (expanded : List Bytes)
    → AreTags tags
    → IsSpace (c ∷ s)
    → length s < line_max - 1
    → nonempty_lines (expand_arg tags ((c ∷ s) ++ (b'#' ∷ c')) ∷ expanded)
      ≡ [] ∷ nonempty_lines expanded
unfolding nonempty_lines expand_arg uncomment strstrip strip_right
nonempty_lines-expand_arg_indented tags c s c' expanded t h k =
    let no_comment : (c == b'#') ≡ false = ground (arith, h.0) in
    let kept : uncomment ((c ∷ s) ++ (b'#' ∷ c')) ≡ some (c ∷ s) =
      ap (λ b. if b then none else some (c ∷ cut_comment c (line_max - 1) (s ++ (b'#' ∷ c'))))
        no_comment
      ∙ ap (λ u. some (c ∷ u)) (cut_comment-space c (line_max - 1) s c' h.0 h.1 k) in
    ap
      (λ o.
        nonempty_lines
          (elim o as (λ _. Bytes) [ none ↦ [] | some line ↦ replace_tags tags line ] ∷ expanded))
      kept
    ∙ ap (λ l. nonempty_lines (l ∷ expanded))
        (replace_tags-plain tags (c ∷ s) t (IsSpace-IsPlain (c ∷ s) h))
    ∙ ap (λ u. strip_right u ∷ nonempty_lines expanded) (strip_left-IsSpace (c ∷ s) h)
