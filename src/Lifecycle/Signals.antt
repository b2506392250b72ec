-- ===== src/Lifecycle/Signals.antt =====
-- The names of signals in src/util.c, and the signal that src/commands/kill.c chooses.
use mathlib.Core.Option.{some-injective, none-ne-some}
use mathlib.Core.Path.{subst}
use cc_oci_runtime.Prelude.{
  ℕ, ◌<◌, ◌≡◌, refl, sym, inl, inr, ℤ, pos, negsuc, Option, none, some, List, [], ◌∷◌, ◌++◌,
  if◌then◌else◌, Bytes, codes, str_eq, str_eq_iff, take, atol, to_int32, ltb, ltb_ℤ, Bool-cases,
  arith, ltb→lt, ap, ◌∙◌, ◌+◌, Bool, true, false,
}

-- The entries above the terminator, with the numbers that Linux gives them on most machines.
unfoldable pub signal_table : List (ℕ × Bytes)
signal_table =
    (1, codes "SIGHUP")
    ∷ (2, codes "SIGINT")
    ∷ (3, codes "SIGQUIT")
    ∷ (4, codes "SIGILL")
    ∷ (5, codes "SIGTRAP")
    ∷ (6, codes "SIGABRT")
    ∷ (6, codes "SIGIOT")
    ∷ (7, codes "SIGBUS")
    ∷ (8, codes "SIGFPE")
    ∷ (9, codes "SIGKILL")
    ∷ (10, codes "SIGUSR1")
    ∷ (11, codes "SIGSEGV")
    ∷ (12, codes "SIGUSR2")
    ∷ (13, codes "SIGPIPE")
    ∷ (14, codes "SIGALRM")
    ∷ (15, codes "SIGTERM")
    ∷ (16, codes "SIGSTKFLT")
    ∷ (17, codes "SIGCLD")
    ∷ (17, codes "SIGCHLD")
    ∷ (18, codes "SIGCONT")
    ∷ (19, codes "SIGSTOP")
    ∷ (20, codes "SIGTSTP")
    ∷ (21, codes "SIGTTIN")
    ∷ (22, codes "SIGTTOU")
    ∷ (23, codes "SIGURG")
    ∷ (24, codes "SIGXCPU")
    ∷ (25, codes "SIGXFSZ")
    ∷ (26, codes "SIGVTALRM")
    ∷ (27, codes "SIGPROF")
    ∷ (28, codes "SIGWINCH")
    ∷ (29, codes "SIGPOLL")
    ∷ (29, codes "SIGIO")
    ∷ (30, codes "SIGPWR")
    ∷ (31, codes "SIGSYS")
    ∷ (31, codes "SIGUNUSED")
    ∷ []

find_signal : Bytes → List (ℕ × Bytes) → Option ℕ
find_signal full_name [] = none
find_signal full_name ((num, name) ∷ rest) =
    if str_eq full_name name then some num else find_signal full_name rest

-- g_strlcpy and g_strlcat into an array of 32 characters.
unfoldable pub full_name : Bytes → Bytes
full_name signame =
    take 31 (if str_eq (take 3 signame) (codes "SIG") then signame else codes "SIG" ++ signame)

-- `none` stands for -1.
unfoldable pub get_signum : Option Bytes → Option ℕ
unfolding find_signal signal_table full_name
get_signum none = none
get_signum (some signame) = find_signal (full_name signame) signal_table

abbrev positive : ℤ → Option ℕ
positive (pos n) = if ltb_ℤ (pos 0) (pos n) then some n else none
positive (negsuc n) = none

-- A number is taken as it is; no argument is SIGTERM.
unfoldable pub choose_signal : Option Bytes → Option ℕ
unfolding get_signum
choose_signal none = some 15
choose_signal (some signame) = elim (positive (to_int32 (atol signame))) [
  | some signum ↦ some signum
  | none ↦ get_signum (some signame)
]

-- A number and a name that stand in the table.
pub data Listed (signum : ℕ) (name : Bytes) : List (ℕ × Bytes) → Type 0 where
  first :
      (num : ℕ) (known : Bytes) (rest : List (ℕ × Bytes))
      → num ≡ signum
      → known ≡ name
      → Listed signum name ((num, known) ∷ rest)
  next :
      (entry : ℕ × Bytes) (rest : List (ℕ × Bytes))
      → Listed signum name rest
      → Listed signum name (entry ∷ rest)

-- What the words of a kill command say of its signal: nothing, which is SIGTERM, a positive number,
-- or a name, with or without its SIG.
pub data Chooses : Option Bytes → ℕ → Type 0 where
  no_word : (signum : ℕ) → signum ≡ 15 → Chooses none signum
  number :
      (word : Bytes) (signum : ℕ)
      → to_int32 (atol word) ≡ pos signum
      → 0 < signum
      → Chooses (some word) signum
  symbol :
      (word : Bytes) (signum : ℕ)
      → Listed signum (full_name word) signal_table
      → Chooses (some word) signum

find_signal-Listed :
    (name : Bytes) (table : List (ℕ × Bytes)) (signum : ℕ)
    → find_signal name table ≡ some signum
    → Listed signum name table
unfolding find_signal
find_signal-Listed name [] signum h = absurd (none-ne-some _ h)
find_signal-Listed name ((num, known) ∷ rest) signum h = elim (Bool-cases (str_eq name known)) [
  | inl e ↦
      first num known rest (some-injective _ _ (rw e at h)) (sym ((str_eq_iff name known).0 e))
  | inr e ↦ next (num, known) rest (find_signal-Listed name rest signum (rw e at h))
]

pub choose_signal-Chooses :
    (signame : Option Bytes) (signum : ℕ)
    → choose_signal signame ≡ some signum
    → Chooses signame signum
unfolding choose_signal get_signum
choose_signal-Chooses none signum h = no_word signum (sym (some-injective _ _ h))
choose_signal-Chooses (some word) signum h = by_number (to_int32 (atol word)) refl h
  where
    named : Option ℕ
    named = find_signal (full_name word) signal_table

    by_number :
        (n : ℤ)
        → to_int32 (atol word) ≡ n
        → Path
            (Option ℕ)
            (elim (positive n) as (λ _. Option ℕ) [ some signum ↦ some signum | none ↦ named ])
            (some signum)
        → Chooses (some word) signum
    by_number (negsuc k) e h = symbol word signum (find_signal-Listed _ _ signum h)
    by_number (pos k) e h = by_sign (ltb_ℤ (pos 0) (pos k)) refl h
      where
        by_sign :
            (b : Bool)
            → ltb_ℤ (pos 0) (pos k) ≡ b
            → Path
                (Option ℕ)
                (elim (if b then some k else none) as (λ _. Option ℕ) [
                  | some signum ↦ some signum
                  | none ↦ named
                ])
                (some signum)
            → Chooses (some word) signum
        by_sign false s h = symbol word signum (find_signal-Listed _ _ signum h)
        by_sign true s h =
            let positive_k : ltb (0 + 0) (k + 0) ≡ true = s in
            let above : 0 < k = omega (arith, ltb→lt (0 + 0) (k + 0) positive_k) in
            let same = some-injective k signum h in
            number word signum (e ∙ ap pos same) (subst (λ m. 0 < m) same above)
