-- ===== src/Clib/Fprintf/Writing.antt =====
-- What fprintf writes is what vprintfmt puts, in calls of at most 256 bytes.
use kludgeos.Base.{
  ℕ, ◌+◌, ◌%◌, ◌^◌, ◌≤◌, ◌≡◌, ◌==◌, if◌then◌else◌, update, List, [], ◌∷◌, ◌++◌, length, Code, ok,
}
use kludgeos.Clib.Printbuf.{bytes_from}
use kludgeos.Clib.Printbuf.Output.{concat, as_bytes}
use kludgeos.Clib.Fprintf.{Printbuf, one, count, no_count, bufsize, answer}

-- Calls of at most 256 bytes.
abbrev pub AreShort : List (List ℕ) → Type 0
AreShort [] = Unit {0}
AreShort (x ∷ xs) = (length x ≤ bufsize) × AreShort xs

-- The characters `put` were put and nothing failed.
record Holds (put : List ℕ) (b : Printbuf) : Type 0 where
  no_error : b.error ≡ one
  bytes : concat b.calls ++ bytes_from b.buf 0 b.idx ≡ put
  sum : b.result ≡ length (concat b.calls)
  short : AreShort b.calls

module _ (write : List (List ℕ) → List ℕ → Code ℕ)
    (full : (calls : List (List ℕ)) (bs : List ℕ) → write calls bs ≡ ok (length bs)) where
  flushed : Printbuf → Printbuf
  flushed b = record b {
    result = b.result + b.idx;
    calls = b.calls ++ (bytes_from b.buf 0 b.idx ∷ []);
  }

  -- A character in the buffer.
  with_byte : ℕ → Printbuf → Printbuf
  with_byte c b = record b { buf = update b.buf b.idx (c % 2 ^ 8); idx = b.idx + 1 }

  -- The end of vfprintf, with the buffer `b` after the last character.
  Ends : List ℕ → Printbuf → Type 0
  Ends cs b =
      (concat b.calls ≡ as_bytes cs)
      × AreShort b.calls
      × (answer write b ≡ (if length cs == 0 then no_count one else count (length cs)))
