-- ===== src/Container/Status.antt =====
-- The table of status names of src/state.c, and the functions that walk it.
use Prim.Native.Nat.{max}
use cc_oci_runtime.Prelude.{
  ℕ, ◌≤◌, ◌≡◌, ◌≢◌, refl, sym, ap, ◌∙◌, Option, none, some, List, [], ◌∷◌, if◌then◌else◌, Bytes,
  codes, length, str_eq, str_eq_iff, arith, ◌==◌, ◌↔◌,
}
use mathlib.Core.Option.{some-injective}
use cc_oci_runtime.Container.Types.{Status, created, running, paused, stopped, stopping, invalid}

-- The numbers of the enumeration, with 5 for -1.
abbrev pub status_number : Status → ℕ
status_number created = 0
status_number running = 1
status_number paused = 2
status_number stopped = 3
status_number stopping = 4
status_number invalid = 5

-- The entries above the terminator.
unfoldable pub oci_status_map : List (Status × Bytes)
oci_status_map =
    (created, codes "created")
    ∷ (running, codes "running")
    ∷ (paused, codes "paused")
    ∷ (stopped, codes "stopped")
    ∷ (stopping, codes "stopping")
    ∷ []

find_name : Status → List (Status × Bytes) → Option Bytes
find_name status [] = none
find_name status ((num, name) ∷ rest) =
    if status_number num == status_number status then some name else find_name status rest

unfoldable pub status_to_str : Status → Option Bytes
unfolding find_name oci_status_map
status_to_str status = find_name status oci_status_map

find_status : Bytes → List (Status × Bytes) → Status
find_status str [] = invalid
find_status str ((num, name) ∷ rest) = if str_eq str name then num else find_status str rest

unfoldable pub str_to_status : Bytes → Status
unfolding find_status oci_status_map
str_to_status str = find_status str oci_status_map

longest : ℕ → List (Status × Bytes) → ℕ
longest best [] = best
longest best ((num, name) ∷ rest) = longest (max (length name) best) rest

unfoldable pub status_length : ℕ
unfolding longest oci_status_map
status_length = longest 0 oci_status_map

same_text :
    {status : Status} (text name : Bytes)
    → str_to_status text ≡ status
    → some text ≡ some name
    → str_to_status name ≡ status
same_text text name h e = ap str_to_status (sym (some-injective text name e)) ∙ h

pub name_reads_back :
    (status : Status) (name : Bytes)
    → status_to_str status ≡ some name
    → str_to_status name ≡ status
unfolding status_to_str str_to_status str_eq
name_reads_back created name e = same_text (codes "created") name refl e
name_reads_back running name e = same_text (codes "running") name refl e
name_reads_back paused name e = same_text (codes "paused") name refl e
name_reads_back stopped name e = same_text (codes "stopped") name refl e
name_reads_back stopping name e = same_text (codes "stopping") name refl e
name_reads_back invalid name e = cc

read_has_name :
    (status : Status) (str : Bytes)
    → status ≢ invalid
    → str_to_status str ≡ status
    → status_to_str status ≡ some str
unfolding str_to_status status_to_str
read_has_name status str h e = ground (
  arith,
  str_eq_iff str (codes "created"),
  str_eq_iff str (codes "running"),
  str_eq_iff str (codes "paused"),
  str_eq_iff str (codes "stopped"),
  str_eq_iff str (codes "stopping"),
)

-- For every status but the invalid one, the texts that read as the status are just its name.
pub str_to_status_iff :
    (status : Status) (str : Bytes)
    → status ≢ invalid
    → (status_to_str status ≡ some str) ↔ (str_to_status str ≡ status)
str_to_status_iff status str h = (name_reads_back status str, read_has_name status str h)

-- Every status but the invalid one has a name, of at most `status_length` characters.
pub status_to_str-le-status_length :
    (status : Status)
    → status ≢ invalid
    → (name : Bytes) × (status_to_str status ≡ some name) × (length name ≤ status_length)
unfolding status_to_str status_length
status_to_str-le-status_length created h = (_, refl, omega arith)
status_to_str-le-status_length running h = (_, refl, omega arith)
status_to_str-le-status_length paused h = (_, refl, omega arith)
status_to_str-le-status_length stopped h = (_, refl, omega arith)
status_to_str-le-status_length stopping h = (_, refl, omega arith)
status_to_str-le-status_length invalid h = absurd (h refl)
