-- ===== src/Shim/Kernel.antt =====
-- read and write on a socket or a pipe, as the shim sees them: what has arrived, in the pieces in
-- which the kernel hands it over, and how many bytes each write accepts.
use cc_oci_runtime.Prelude.{ℕ, List, [], ◌∷◌, ◌++◌, Bytes, take, drop}

-- One piece of input: some bytes, where none means the end of the stream, or a failed read.
pub data Arrival : Type 0 where
  piece : Bytes → Arrival
  broken : Arrival

pub data ReadResult : Type 0 where
  received : Bytes → ReadResult
  end_of_file : ReadResult
  read_error : ReadResult

-- What a read that wanted less than a piece leaves of it.
abbrev pub keep_rest : Bytes → List Arrival → List Arrival
keep_rest [] rest = rest
keep_rest (b ∷ bs) rest = piece (b ∷ bs) ∷ rest

-- read (fd, buf, want), for 0 < want: at most `want` bytes of the first piece. A closed stream gives
-- 0 for ever.
unfoldable pub read : ℕ → List Arrival → ReadResult × List Arrival
read want [] = (end_of_file, [])
read want (broken ∷ rest) = (read_error, rest)
read want (piece [] ∷ rest) = (end_of_file, piece [] ∷ rest)
read want (piece (b ∷ bs) ∷ rest) =
    (received (take want (b ∷ bs)), keep_rest (drop want (b ∷ bs)) rest)

-- The answers of the kernel to the writes to come: so many bytes at most, or an error.
pub data Answer : Type 0 where
  accepts : ℕ → Answer
  refuses : Answer

-- How a loop of writes ends: all sent, given up after an error, or still waiting when the answers
-- run out. The bytes are those that the other side has received.
pub data Sending : Type 0 where
  sent : Bytes → Sending
  failed : Bytes → Sending
  blocked : Bytes → Sending

abbrev pub delivered : Sending → Bytes
delivered (sent bs) = bs
delivered (failed bs) = bs
delivered (blocked bs) = bs

-- The bytes `bs` were received before those of `s`.
abbrev pub preceded_by : Bytes → Sending → Sending
preceded_by bs (sent cs) = sent (bs ++ cs)
preceded_by bs (failed cs) = failed (bs ++ cs)
preceded_by bs (blocked cs) = blocked (bs ++ cs)
