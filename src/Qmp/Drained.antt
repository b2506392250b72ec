-- ===== src/Qmp/Drained.antt =====
-- What the inner loop makes of the first part of a text of messages.
use mathlib.Core.Path.{subst}
use cc_oci_runtime.Prelude.{
  ℕ, zero, suc, ◌+◌, ◌≤◌, ◌≡◌, ◌≢◌, refl, sym, ap, ap₂, ◌∙◌, none, some, List, [], ◌∷◌, ◌++◌, ◌⊎◌,
  inl, inr, length, All, length-append, Bytes, arith,
}
use cc_oci_runtime.Qmp.{put_before, find_separator, read_messages}

-- A message without NUL and carriage returns.
abbrev pub IsMessage : Bytes → Type 0
IsMessage = All (λ c. (c ≢ 0) × (c ≢ 13))

-- The messages as they are sent, each with its separator.
abbrev pub sent : List Bytes → Bytes
sent [] = []
sent (msg ∷ msgs) = msg ++ (13 ∷ 10 ∷ sent msgs)

head_or : ℕ → Bytes → ℕ
head_or n [] = n
head_or n (c ∷ s) = c

tail_of : Bytes → Bytes
tail_of [] = []
tail_of (c ∷ s) = s

find_step :
    (c : ℕ) (s : Bytes) → c ≢ 0 → c ≢ 13 → find_separator (c ∷ s) ≡ put_before c (find_separator s)
unfolding find_separator
find_step c s h k = ground arith

pub find_whole : (m j : Bytes) → IsMessage m → find_separator (m ++ (13 ∷ 10 ∷ j)) ≡ some (m, j)
unfolding find_separator
find_whole [] j h = refl
find_whole (c ∷ m) j ((h, k), hs) =
    find_step c (m ++ (13 ∷ 10 ∷ j)) h k ∙ ap (put_before c) (find_whole m j hs)

-- A prefix of what is sent: the first message is not complete, or it is.
abbrev Split : Bytes → Bytes → Bytes → Bytes → Type 0
Split m b q j =
    (find_separator b ≡ none) ⊎ ((b' : Bytes) × (find_separator b ≡ some (m, b')) × (b' ++ q ≡ j))

Split-put : (c : ℕ) (m b q j : Bytes) → c ≢ 0 → c ≢ 13 → Split m b q j → Split (c ∷ m) (c ∷ b) q j
Split-put c m b q j h k (inl e) = inl (find_step c b h k ∙ ap (put_before c) e)
Split-put c m b q j h k (inr (b', e, f)) = inr (b', find_step c b h k ∙ ap (put_before c) e, f)

Split-first : (m b q j : Bytes) → IsMessage m → b ++ q ≡ m ++ (13 ∷ 10 ∷ j) → Split m b q j
unfolding find_separator head_or tail_of
Split-first m [] q j h e = inl refl
Split-first [] (c ∷ []) q j h e = inl (ap (λ d. find_separator (d ∷ [])) (ap (head_or 0) e))
Split-first [] (c ∷ d ∷ b) q j h e = inr (
  b,
  ap₂ (λ x y. find_separator (x ∷ y ∷ b)) (ap (head_or 0) e) (ap (λ s. head_or 0 (tail_of s)) e),
  ap (λ s. tail_of (tail_of s)) e,
)
Split-first (x ∷ m) (c ∷ b) q j ((h, k), hs) e =
    let f : c ≡ x = ap (head_or 0) e in
    subst (λ y. Split (x ∷ m) (y ∷ b) q j) (sym f)
      (Split-put x m b q j h k (Split-first m b q j hs (ap tail_of e)))

-- What the inner loop makes of a prefix of what is sent.
pub record Drained (n : ℕ) (left : List Bytes) (b q : Bytes) : Type 0 where
  pub done : List Bytes
  pub later : List Bytes
  pub rest : Bytes
  pub reads : read_messages n b ≡ (done, rest)
  pub parts : left ≡ done ++ later
  pub remains : rest ++ q ≡ sent later
  pub complete : find_separator rest ≡ none

reads_none : (n : ℕ) (b : Bytes) → find_separator b ≡ none → read_messages n b ≡ ([], b)
unfolding read_messages
reads_none zero b e = refl
reads_none (suc n) b e =
    ap
      (λ o. elim o as (λ _. List Bytes × Bytes) [
        | none ↦ ([], b)
        | some r ↦ (let more = read_messages n r.1 in (r.0 ∷ more.0, more.1))
      ])
      e

reads_one :
    (n : ℕ) (b m b' : Bytes)
    → find_separator b ≡ some (m, b')
    → read_messages (suc n) b ≡ (m ∷ (read_messages n b').0, (read_messages n b').1)
unfolding read_messages
reads_one n b m b' e =
    ap
      (λ o. elim o as (λ _. List Bytes × Bytes) [
        | none ↦ ([], b)
        | some r ↦ (let more = read_messages n r.1 in (r.0 ∷ more.0, more.1))
      ])
      e

shorter :
    (m b b' q j : Bytes) → b ++ q ≡ m ++ (13 ∷ 10 ∷ j) → b' ++ q ≡ j → length b' + 2 ≤ length b
shorter m b b' q j e f =
    let l1 = length-append b q in
    let l2 = length-append m (13 ∷ 10 ∷ j) in
    let l3 = length-append b' q in let l4 = ap length e in let l5 = ap length f in omega arith

pub find_empty : find_separator [] ≡ none
unfolding find_separator
find_empty = refl

pub drained :
    (left : List Bytes) (n : ℕ) (b q : Bytes)
    → All IsMessage left
    → length b ≤ n
    → b ++ q ≡ sent left
    → Drained n left b q
drained [] n [] q h l e = record {
  done = [];
  later = [];
  rest = [];
  reads = reads_none n [] find_empty;
  parts = refl;
  remains = e;
  complete = find_empty;
}
drained [] n (c ∷ b) q h l e = absurd (let k = ap length e in omega arith)
drained (m ∷ left) n b q (h, hs) l e =
    by_split n l (λ k b'. drained left k b' q hs) (Split-first m b q (sent left) h e)
  where
    by_split :
        (n : ℕ)
        → length b ≤ n
        → ((k : ℕ) (b' : Bytes) → length b' ≤ k → b' ++ q ≡ sent left → Drained k left b' q)
        → Split m b q (sent left)
        → Drained n (m ∷ left) b q
    by_split n l ih (inl f) = record {
      done = [];
      later = m ∷ left;
      rest = b;
      reads = reads_none n b f;
      parts = refl;
      remains = e;
      complete = f;
    }
    by_split zero l ih (inr (b', f, g)) =
        absurd (let k = shorter m b b' q (sent left) e g in omega arith)
    by_split (suc n) l ih (inr (b', f, g)) =
        let d = ih n b' (let k = shorter m b b' q (sent left) e g in omega arith) g in
        record {
          done = m ∷ d.done;
          later = d.later;
          rest = d.rest;
          reads = reads_one n b m b' f ∙ ap (λ r. (m ∷ r.0, r.1)) d.reads;
          parts = ap (m ∷◌) d.parts;
          remains = d.remains;
          complete = d.complete;
        }
