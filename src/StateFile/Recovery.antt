-- ===== src/StateFile/Recovery.antt =====
-- `cc_oci_state_file_read` after `cc_oci_state_file_create`.
use mathlib.Core.Bool.{false≢true}
use cc_oci_runtime.Prelude.{
  ◌≡◌, refl, sym, ap, ◌∙◌, Bool, true, false, inl, inr, some, [], ◌∷◌, ◌++◌, Bytes, str_eq_refl,
  Bool-cases, arith,
}
use cc_oci_runtime.Container.Types.{Config, fit_path}
use cc_oci_runtime.StateFile.Json.{Json}
use cc_oci_runtime.StateFile.Read.{state_file_read, read_document}
use cc_oci_runtime.StateFile.Write.{
  Complete, check_complete, is_empty, document, Disk, state_file, state_file_get, state_file_create,
  write_file,
}
use cc_oci_runtime.StateFile.RecallMounts.{Option-cases}
use cc_oci_runtime.StateFile.RoundTrip.{Fits, ReadsBack, document-ReadsBack}

-- The path that `state_file_get` sets.
abbrev pub state_path : Config → Bytes
state_path c = fit_path (c.runtime_path ++ (b'/' ∷ state_file))

abbrev pub with_path : Config → Config
with_path c = record c { state_file_path = state_path c }

-- A call of `state_file_create` that has succeeded.
pub record Creates (c : Config) (create_time : Bytes) (disk : Disk) (c' : Config) (disk' : Disk)
    : Type 0 where
  pub complete : Complete
  pub is_complete : check_complete c ≡ some complete
  pub has_path : is_empty c.runtime_path ≡ false
  pub doc : Json
  pub has_doc : document (with_path c) complete create_time ≡ some doc
  pub config : c' ≡ with_path c
  pub files : disk' ≡ write_file (state_path c) doc disk

abbrev Result : Type 0
Result = Config × Disk × Bool

pub not_created :
    {c c' : Config} {disk disk' : Disk} → ¬ Path Result (c, disk, false) (c', disk', true)
not_created e = false≢true (ap (λ z. z.2) e)

pub state_file_create-Creates :
    (c c' : Config) (create_time : Bytes) (writable : Bool) (disk disk' : Disk)
    → state_file_create c (some create_time) writable disk ≡ (c', disk', true)
    → Creates c create_time disk c' disk'
unfolding state_file_create state_file_get
state_file_create-Creates c c' t w disk disk' h = elim (Option-cases (check_complete c)) [
  | inl e ↦ absurd (not_created (rw (e, state_file_create) at h))
  | inr (k, e) ↦ elim (Bool-cases (is_empty c.runtime_path)) [
    | inl blank ↦ absurd (not_created (rw (e, blank, state_file_create) at h))
    | inr there ↦ elim (Option-cases (document (with_path c) k t)) [
      | inl d ↦ absurd (not_created (rw (e, there, d, state_file_create) at h))
      | inr (doc, d) ↦ elim (Bool-cases w) [
        | inl writable ↦
            (let r : Path Result (with_path c, write_file (state_path c) doc disk, true)
                  (c', disk', true) =
                rw (e, there, d, writable, state_file_create) at h in
              record {
                complete = k;
                is_complete = e;
                has_path = there;
                doc = doc;
                has_doc = d;
                config = sym (ap (λ z. z.0) r);
                files = sym (ap (λ z. z.1) r);
              })
        | inr refused ↦ absurd (not_created (rw (e, there, d, refused, state_file_create) at h))
      ]
    ]
  ]
]

check_complete-vm : (c : Config) (k : Complete) → check_complete c ≡ some k → c.vm ≡ some k.vm
unfolding check_complete
check_complete-vm c k h = ground arith

state_path_not_empty :
    (r : Bytes) → is_empty r ≡ false → is_empty (fit_path (r ++ (b'/' ∷ state_file))) ≡ false
state_path_not_empty [] h = cc
state_path_not_empty (b ∷ r) h = refl

-- What a call has written for a config whose numbers and texts fit their types is read back from the
-- path that it has set: the sections of the container come back as they were, mounts that were never
-- done are left out, texts that were NULL come back empty, and the ids of the user come back as 0.
-- Not in the file, and so lost, are the workloads of a pod and source, directory, type,
-- flags and options of mounts. Nothing is said of the annotations.
pub state_file_read-state_file_create :
    (c c' : Config) (create_time : Bytes) (writable : Bool) (disk disk' : Disk)
    → Fits c
    → state_file_create c (some create_time) writable disk ≡ (c', disk', true)
    → ReadsBack c create_time (state_file_read disk' (some c'.state_file_path))
unfolding state_file_read check_complete
state_file_read-state_file_create c c' t w disk disk' f h =
    let r = state_file_create-Creates c c' t w disk disk' h in
    let path = state_path c in
    let fits : Fits (with_path c) = record {
      workload_pid = f.workload_pid;
      mounts = f.mounts;
      process = f.process;
      vm = f.vm;
    } in
    let b =
      document-ReadsBack (with_path c) r.complete t path r.doc fits r.is_complete
        (f.vm r.complete.vm (check_complete-vm c r.complete r.is_complete)) r.has_doc in
    let reads : state_file_read (write_file path r.doc disk) (some path)
        ≡ read_document path r.doc =
      rw (state_path_not_empty c.runtime_path r.has_path, str_eq_refl path) refl in
    record {
      complete = b.complete;
      is_complete = b.is_complete;
      args = b.args;
      has_args = b.has_args;
      notes = b.notes;
      reads =
          ap (λ d. state_file_read d (some c'.state_file_path)) r.files
          ∙ ap (λ z. state_file_read (write_file path r.doc disk) (some z.state_file_path)) r.config
          ∙ reads
          ∙ b.reads;
    }
