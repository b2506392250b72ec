-- ===== src/ListingExamples.antt =====
-- The theorems on the list command at small inputs.
use cc_oci_runtime.Prelude.{
  ◌≡◌, ◌++◌, refl, true, false, some, List, [], ◌∷◌, ◌==◌, Bytes, codes, decimal,
}
use cc_oci_runtime.Container.Types.{running, OciState}
use cc_oci_runtime.Container.Status.{status_length}
use cc_oci_runtime.StateFile.Read.{blank_state}
use cc_oci_runtime.LifecycleExamples as Lifecycle
use cc_oci_runtime.Listing.{Widths, header, list_table}
use cc_oci_runtime.Listing.Aligned.{AreAligned, list_table-AreAligned}

-- Two containers of different sizes.
abbrev short : OciState
short = record blank_state {
  id = some (codes "a");
  bundle_path = some (codes "/b");
  create_time = some (codes "now");
  vm = some Lifecycle.vm;
}

abbrev long : OciState
long = record short {
  id = some (codes "container");
  pid = 77;
  status = running;
  bundle_path = some (codes "/bundle");
}

abbrev states : List OciState
states = short ∷ long ∷ []

list_table-AreAligned_example :
    (w : Widths) × (rows : Bytes) × (list_table true (λ pid. true) states
      ≡ some (header true w ++ rows))
    × AreAligned true (λ pid. true) w states rows
list_table-AreAligned_example =
    list_table-AreAligned true (λ pid. true) states
      (
        record {
          machine = Lifecycle.vm;
          has_machine = refl;
          id = tt;
          bundle_path = tt;
          create_time = tt;
        },
        (
          record {
            machine = Lifecycle.vm;
            has_machine = refl;
            id = tt;
            bundle_path = tt;
            create_time = tt;
          },
          tt,
        ),
      )

-- The table without the details of the machines.
list_table_test :
    list_table false (λ pid. pid == 1234) (long ∷ [])
    ≡ some (codes "ID        PID STATUS   BUNDLE  CREATED\ncontainer 77  running  /bundle now\n")
unfolding list_table decimal status_length
list_table_test = refl
