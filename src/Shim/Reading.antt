-- ===== src/Shim/Reading.antt =====
-- What a read takes from the input, whatever the pieces in which it arrives.
use cc_oci_runtime.Prelude.{
  ℕ, zero, suc, ◌+◌, ◌≤◌, ◌<◌, ◌≡◌, refl, sym, ap, ◌∙◌, List, [], ◌∷◌, ◌++◌, append_assoc, Bytes,
  length, take, drop, length-append, take-append-drop, arith,
}
use cc_oci_runtime.Shim.Kernel.{Arrival, piece, broken, received, keep_rest, read}

-- Input that is all there: no end of stream and no failure within it.
abbrev pub IsOpen : List Arrival → Type 0
IsOpen [] = Unit
IsOpen (piece [] ∷ rest) = ⊥
IsOpen (piece (b ∷ bs) ∷ rest) = IsOpen rest
IsOpen (broken ∷ rest) = ⊥

abbrev pub bytes_of : List Arrival → Bytes
bytes_of [] = []
bytes_of (piece bs ∷ rest) = bs ++ bytes_of rest
bytes_of (broken ∷ rest) = bytes_of rest

-- What a successful read of open input gives.
pub record Takes (n : ℕ) (arrivals : List Arrival) : Type 0 where
  pub got : Bytes
  pub left : List Arrival
  pub reads : read n arrivals ≡ (received got, left)
  pub some_bytes : 0 < length got
  pub at_most : length got ≤ n
  pub same : got ++ bytes_of left ≡ bytes_of arrivals
  pub still_open : IsOpen left

pub length-take-le {ℓ} : {A : Type ℓ} (n : ℕ) (xs : List A) → length (take n xs) ≤ n
length-take-le zero xs = omega arith
length-take-le (suc n) [] = omega arith
length-take-le (suc n) (x ∷ xs) = omega (arith, length-take-le n xs)

keep_rest-bytes_of :
    (bs : Bytes) (rest : List Arrival) → bytes_of (keep_rest bs rest) ≡ bs ++ bytes_of rest
keep_rest-bytes_of [] rest = refl
keep_rest-bytes_of (b ∷ bs) rest = refl

keep_rest-IsOpen : (bs : Bytes) (rest : List Arrival) → IsOpen rest → IsOpen (keep_rest bs rest)
keep_rest-IsOpen [] rest h = h
keep_rest-IsOpen (b ∷ bs) rest h = h

pub read-Takes :
    (n : ℕ) (arrivals : List Arrival)
    → 0 < n
    → IsOpen arrivals
    → 0 < length (bytes_of arrivals)
    → Takes n arrivals
unfolding read
read-Takes zero arrivals h o k = elim h [ ]
read-Takes (suc n) [] h o k = elim k [ ]
read-Takes (suc n) (broken ∷ rest) h o k = absurd o
read-Takes (suc n) (piece [] ∷ rest) h o k = absurd o
read-Takes (suc n) (piece (b ∷ bs) ∷ rest) h o k = record {
  got = b ∷ take n bs;
  left = keep_rest (drop n bs) rest;
  reads = refl;
  some_bytes = omega arith;
  at_most = omega (arith, length-take-le n bs);
  same = rw keep_rest-bytes_of (rw (← append_assoc) (rw take-append-drop));
  still_open = keep_rest-IsOpen (drop n bs) rest o;
}

-- The bytes of a first part that is long enough, and what is left of it.
pub append_split :
    (bs x part rest : Bytes)
    → bs ++ x ≡ part ++ rest
    → length bs ≤ length part
    → (part' : Bytes) × (part ≡ bs ++ part') × (x ≡ part' ++ rest)
append_split [] x part rest e h = (part, refl, e)
append_split (b ∷ bs) x [] rest e h = absurd (omega arith)
append_split (b ∷ bs) x (p ∷ part) rest e h =
    let (part', split, later) = append_split bs x part rest (cc) (omega arith) in (part', cc, later)

-- A read that wants no more than `part` takes the first bytes of it.
pub record TakesPart (n : ℕ) (arrivals : List Arrival) (part rest : Bytes) : Type 0 where
  pub got : Bytes
  pub later : Bytes
  pub left : List Arrival
  pub reads : read n arrivals ≡ (received got, left)
  pub some_bytes : 0 < length got
  pub split : got ++ later ≡ part
  pub sizes : length got + length later ≡ length part
  pub same : bytes_of left ≡ later ++ rest
  pub still_open : IsOpen left

TakesPart-of-Takes :
    (n : ℕ) (arrivals : List Arrival) (part rest : Bytes)
    → n ≤ length part
    → bytes_of arrivals ≡ part ++ rest
    → Takes n arrivals
    → TakesPart n arrivals part rest
TakesPart-of-Takes n arrivals part rest h e t =
    let (part', split, later) =
      append_split t.got (bytes_of t.left) part rest (t.same ∙ e) (omega (arith, t.at_most)) in
    record {
      got = t.got;
      later = part';
      left = t.left;
      reads = t.reads;
      some_bytes = t.some_bytes;
      split = sym split;
      sizes = sym (ap length split ∙ length-append t.got part');
      same = later;
      still_open = t.still_open;
    }

pub read-TakesPart :
    (n : ℕ) (arrivals : List Arrival) (part rest : Bytes)
    → 0 < n
    → n ≤ length part
    → IsOpen arrivals
    → bytes_of arrivals ≡ part ++ rest
    → TakesPart n arrivals part rest
read-TakesPart n arrivals part rest p h o e =
    TakesPart-of-Takes n arrivals part rest h e
      (read-Takes n arrivals p o (omega (arith, ap length e, length-append part rest)))

pub TakesPart-regroup :
    {n : ℕ} {arrivals : List Arrival} {part rest : Bytes} (buf : Bytes)
    (t : TakesPart n arrivals part rest)
    → (buf ++ t.got) ++ t.later ≡ buf ++ part
TakesPart-regroup buf t = append_assoc buf t.got t.later ∙ ap (◌++◌ buf) t.split
