-- ===== src/Listing/Aligned.antt =====
-- The columns of the table that the list command prints.
use mathlib.Core.List.{map}
use mathlib.Core.Path.{subst}
use mathlib.Core.Option.{some-injective}
use cc_oci_runtime.Prelude.{
  ℕ, zero, suc, ◌≤◌, ◌≡◌, refl, sym, ap, ap₂, ◌∙◌, Bool, true, false, Option, none, some, List, [],
  ◌∷◌, ◌++◌, length, All, if◌then◌else◌, Bytes, decimal, ◌⊎◌, inl, inr, arith,
}
use cc_oci_runtime.Container.Types.{
  Status, created, running, paused, stopped, stopping, invalid, VmCfg, OciState,
}
use cc_oci_runtime.Container.Status.{status_to_str, status_length}
use cc_oci_runtime.Lifecycle.Stop.{vm_running}
use cc_oci_runtime.Listing.{
  Widths, no_widths, larger, assign, update_options, update_all, spaces, padded, shown, pid_text,
  shown_status, machine_cells, cells, line, header, list_vms, list_table,
}

abbrev pub IsText : Option Bytes → Type 0
IsText none = ⊥
IsText (some _) = Unit

-- A state with what the table shows of it.
pub record IsListable (state : OciState) : Type 0 where
  pub machine : VmCfg
  pub has_machine : state.vm ≡ some machine
  pub id : IsText state.id
  pub bundle_path : IsText state.bundle_path
  pub create_time : IsText state.create_time

pub length-padded : (n : ℕ) (s : Bytes) → length s ≤ n → length (padded n s) ≡ n
unfolding padded spaces
length-padded zero [] h = refl
length-padded (suc n) [] h = ap suc (length-padded n [] (omega arith))
length-padded zero (c ∷ s) h = absurd (omega arith)
length-padded (suc n) (c ∷ s) h = ap suc (length-padded n s (omega arith))

larger-left : (a b : ℕ) → a ≤ larger a b
unfolding larger
larger-left a b = ground arith

larger-right : (a b : ℕ) → b ≤ larger a b
unfolding larger
larger-right a b = ground arith

-- The columns are wide enough for the texts, and for the names of the statuses.
record Covers (w : Widths) (state : OciState) (vm : VmCfg) : Type 0 where
  id : length (shown state.id) ≤ w.id
  pid : length (decimal state.pid) ≤ w.pid
  short : 3 ≤ w.pid
  status : status_length ≤ w.status
  bundle : length (shown state.bundle_path) ≤ w.bundle
  created : length (shown state.create_time) ≤ w.created
  hypervisor : length vm.hypervisor_path ≤ w.hypervisor
  image : length vm.image_path ≤ w.image
  kernel : length vm.kernel_path ≤ w.kernel

-- The width of the statuses is set together with its maximum.
abbrev IsCounted : Widths → Type 0
IsCounted w = (w.status_max ≡ 0) ⊎ (status_length ≤ w.status)

record Grows (v w : Widths) : Type 0 where
  id : v.id ≤ w.id
  pid : v.pid ≤ w.pid
  status : status_length ≤ v.status → status_length ≤ w.status
  bundle : v.bundle ≤ w.bundle
  created : v.created ≤ w.created
  hypervisor : v.hypervisor ≤ w.hypervisor
  image : v.image ≤ w.image
  kernel : v.kernel ≤ w.kernel

covered :
    (o : Option Bytes) (old : Bytes) (n : ℕ)
    → IsText o
    → length (shown o) ≤ larger n (length (assign old o))
covered none old n h = absurd h
covered (some s) old n h = larger-right n (length s)

status_wide :
    (w : Widths) (state : OciState) (vm : VmCfg)
    → IsCounted w
    → status_length ≤ (update_options state vm w).status
unfolding update_options
status_wide w state vm (inl h) = ground (arith, h)
status_wide w state vm (inr h) = ground (arith, h)

update_options-Covers :
    (state : OciState) (vm : VmCfg) (w : Widths)
    → IsCounted w
    → IsListable state
    → Covers (update_options state vm w) state vm
unfolding update_options
update_options-Covers state vm w k h = record {
  id = covered state.id [] w.id h.id;
  pid =
      (let a = larger-right w.pid (length (decimal state.pid)) in
        let b = larger-left (larger w.pid (length (decimal state.pid))) 3 in omega arith);
  short = larger-right (larger w.pid (length (decimal state.pid))) 3;
  status = status_wide w state vm k;
  bundle = covered state.bundle_path (decimal state.pid) w.bundle h.bundle_path;
  created = covered state.create_time _ w.created h.create_time;
  hypervisor = larger-right w.hypervisor (length vm.hypervisor_path);
  image = larger-right w.image (length vm.image_path);
  kernel = larger-right w.kernel (length vm.kernel_path);
}

status_kept :
    (w : Widths) (state : OciState) (vm : VmCfg)
    → status_length ≤ w.status
    → status_length ≤ (update_options state vm w).status
status_kept w state vm h = status_wide w state vm (inr h)

update_options-Grows :
    (state : OciState) (vm : VmCfg) (w : Widths) → Grows w (update_options state vm w)
unfolding update_options
update_options-Grows state vm w = record {
  id = larger-left w.id _;
  pid =
      (let a = larger-left w.pid (length (decimal state.pid)) in
        let b = larger-left (larger w.pid (length (decimal state.pid))) 3 in omega arith);
  status = status_kept w state vm;
  bundle = larger-left w.bundle _;
  created = larger-left w.created _;
  hypervisor = larger-left w.hypervisor _;
  image = larger-left w.image _;
  kernel = larger-left w.kernel _;
}

Covers-Grows :
    {v w : Widths} {state : OciState} {vm : VmCfg}
    → Covers v state vm
    → Grows v w
    → Covers w state vm
Covers-Grows c g = record {
  id = (let a = c.id in let b = g.id in omega arith);
  pid = (let a = c.pid in let b = g.pid in omega arith);
  short = (let a = c.short in let b = g.pid in omega arith);
  status = g.status c.status;
  bundle = (let a = c.bundle in let b = g.bundle in omega arith);
  created = (let a = c.created in let b = g.created in omega arith);
  hypervisor = (let a = c.hypervisor in let b = g.hypervisor in omega arith);
  image = (let a = c.image in let b = g.image in omega arith);
  kernel = (let a = c.kernel in let b = g.kernel in omega arith);
}

Grows-trans : {u v w : Widths} → Grows u v → Grows v w → Grows u w
Grows-trans g h = record {
  id = (let a = g.id in let b = h.id in omega arith);
  pid = (let a = g.pid in let b = h.pid in omega arith);
  status = λ k. h.status (g.status k);
  bundle = (let a = g.bundle in let b = h.bundle in omega arith);
  created = (let a = g.created in let b = h.created in omega arith);
  hypervisor = (let a = g.hypervisor in let b = h.hypervisor in omega arith);
  image = (let a = g.image in let b = h.image in omega arith);
  kernel = (let a = g.kernel in let b = h.kernel in omega arith);
}

Grows-refl : (w : Widths) → Grows w w
Grows-refl w = record {
  id = omega arith;
  pid = omega arith;
  status = λ h. h;
  bundle = omega arith;
  created = omega arith;
  hypervisor = omega arith;
  image = omega arith;
  kernel = omega arith;
}

-- The widths of all states together.
abbrev AllCovered : Widths → List OciState → Type 0
AllCovered w [] = Unit
AllCovered w (state ∷ states) =
    ((vm : VmCfg) → state.vm ≡ some vm → Covers w state vm) × AllCovered w states

record Collected (v : Widths) (states : List OciState) : Type 0 where
  widths : Widths
  found : update_all states v ≡ some widths
  grown : Grows v widths
  covering : AllCovered widths states

update_all-Collected :
    (states : List OciState) (v : Widths) → IsCounted v → All IsListable states → Collected v states
unfolding update_all
update_all-Collected [] v k h = record {
  widths = v;
  found = refl;
  grown = Grows-refl v;
  covering = tt;
}
update_all-Collected (state ∷ states) v k (h, hs) =
    let m = h.machine in
    let next = update_options state m v in
    let c = update_all-Collected states next (inr (status_wide v state m k)) hs in
    record {
      widths = c.widths;
      found =
          ap
            (λ o. elim o as (λ _. Option Widths) [
              | none ↦ none
              | some vm ↦ update_all states (update_options state vm v)
            ])
            h.has_machine
          ∙ c.found;
      grown = Grows-trans (update_options-Grows state m v) c.grown;
      covering = (
        (λ vm e.
            subst (λ x. Covers c.widths state x) (some-injective m vm (sym h.has_machine ∙ e))
              (Covers-Grows (update_options-Covers state m v k h) c.grown)),
        c.covering,
      );
    }

abbrev pub machine_columns : Bool → Widths → List ℕ
machine_columns show_all w = if show_all then w.hypervisor ∷ w.kernel ∷ w.image ∷ [] else []

abbrev pub columns : Bool → Widths → List ℕ
columns show_all w = w.id ∷ w.pid ∷ w.status ∷ w.bundle ∷ w.created ∷ machine_columns show_all w

-- A line for each state, whose cells are as wide as the columns.
pub data AreAligned (show_all : Bool) (found : ℕ → Bool) (w : Widths)
    : List OciState → Bytes → Type 0 where
  none_left : AreAligned show_all found w [] []
  next_line :
      (state : OciState) (vm : VmCfg) (states : List OciState) (rest : Bytes)
      → state.vm ≡ some vm
      → map length (cells show_all found w state vm) ≡ columns show_all w
      → AreAligned show_all found w states rest
      → AreAligned show_all found w
          (state ∷ states)
          (line (cells show_all found w state vm) ++ rest)

-- The name of a status, or "(null)", is no longer than the column.
status_fits : (status : Status) → length (shown (status_to_str status)) ≤ status_length
unfolding status_to_str status_length
status_fits created = omega arith
status_fits running = omega arith
status_fits paused = omega arith
status_fits stopped = omega arith
status_fits stopping = omega arith
status_fits invalid = omega arith

shown_status_fits :
    (found : ℕ → Bool) (state : OciState)
    → length (shown (shown_status found state)) ≤ status_length
unfolding shown_status
shown_status_fits found state = by_case (vm_running state.vm _)
  where
    by_case :
        (b : Bool)
        → length (shown (if b then status_to_str state.status else status_to_str stopped))
          ≤ status_length
    by_case true = status_fits state.status
    by_case false = status_fits stopped

pid_fits :
    (width pid : ℕ) → length (decimal pid) ≤ width → 3 ≤ width → length (pid_text width pid) ≤ width
pid_fits zero zero h k = absurd (omega arith)
pid_fits (suc zero) zero h k = absurd (omega arith)
pid_fits (suc (suc width)) zero h k = omega arith
pid_fits width (suc pid) h k = ground (arith, h)

machine_columns_lem :
    (show_all : Bool) (w : Widths) (state : OciState) (vm : VmCfg)
    → Covers w state vm
    → map length (machine_cells show_all w vm.hypervisor_path vm.kernel_path vm.image_path)
      ≡ machine_columns show_all w
machine_columns_lem true w state vm c =
    ap₂ (◌∷◌) (length-padded w.hypervisor vm.hypervisor_path c.hypervisor) (
      ap₂ (◌∷◌) (length-padded w.kernel vm.kernel_path c.kernel)
        (ap (◌∷ []) (length-padded w.image vm.image_path c.image)))
machine_columns_lem false w state vm c = refl

cells-columns :
    (show_all : Bool) (found : ℕ → Bool) (w : Widths) (state : OciState) (vm : VmCfg)
    → Covers w state vm
    → map length (cells show_all found w state vm) ≡ columns show_all w
unfolding cells
cells-columns show_all found w state vm c = ap₂ (◌∷◌) (length-padded w.id _ c.id) (
    ap₂ (◌∷◌) (length-padded w.pid _ (pid_fits w.pid state.pid c.pid c.short)) (
      ap₂ (◌∷◌)
        (length-padded w.status _
          (let a = shown_status_fits found state in let b = c.status in omega arith))
        (ap₂ (◌∷◌) (length-padded w.bundle _ c.bundle) (
          ap₂ (◌∷◌) (length-padded w.created _ c.created)
            (machine_columns_lem show_all w state vm c)))))

list_vms-AreAligned :
    (show_all : Bool) (found : ℕ → Bool) (w : Widths) (states : List OciState)
    → All IsListable states
    → AllCovered w states
    → (rows : Bytes) × (list_vms show_all found w states ≡ some rows)
      × AreAligned show_all found w states rows
unfolding list_vms
list_vms-AreAligned show_all found w [] h c = ([], refl, none_left)
list_vms-AreAligned show_all found w (state ∷ states) (h, hs) (c, cs) =
    let (rest, e, k) = list_vms-AreAligned show_all found w states hs cs in
    let m = h.machine in
    (
      line (cells show_all found w state m) ++ rest,
      ap
            (λ o. elim o as (λ _. Option Bytes) [
              | none ↦ none
              | some vm ↦ elim (list_vms show_all found w states) [
                | none ↦ none
                | some later ↦ some (line (cells show_all found w state vm) ++ later)
              ]
            ])
            h.has_machine
          ∙ ap
              (λ o. elim o as (λ _. Option Bytes) [
                | none ↦ none
                | some later ↦ some (line (cells show_all found w state m) ++ later)
              ])
              e,
      next_line state m states rest h.has_machine
          (cells-columns show_all found w state m (c m h.has_machine)) k,
    )

-- The table of containers whose states have a machine, an id, a bundle and a time of creation is
-- printed without a crash: the header, and then one line for each container, in order, whose cells
-- are all just as wide as their columns, whatever the lengths of the texts. Of the header it is not
-- said that it fits.
pub list_table-AreAligned :
    (show_all : Bool) (found : ℕ → Bool) (states : List OciState)
    → All IsListable states
    → (w : Widths) × (rows : Bytes) × (list_table show_all found states
        ≡ some (header show_all w ++ rows))
      × AreAligned show_all found w states rows
unfolding list_table
list_table-AreAligned show_all found states h =
    let c = update_all-Collected states no_widths (inl refl) h in
    let (rows, e, k) = list_vms-AreAligned show_all found c.widths states h c.covering in
    (
      c.widths,
      rows,
      ap
            (λ o. elim o as (λ _. Option Bytes) [
              | none ↦ none
              | some w ↦ elim (list_vms show_all found w states) [
                | none ↦ none
                | some later ↦ some (header show_all w ++ later)
              ]
            ])
            c.found
          ∙ ap
              (λ o. elim o as (λ _. Option Bytes) [
                | none ↦ none
                | some later ↦ some (header show_all c.widths ++ later)
              ])
              e,
      k,
    )
