-- ===== src/Login/Readln.antt =====
-- lib/readln.c: a line read one byte at a time from a descriptor.
use rmsgw.Prelude.{
  ℕ, zero, suc, ◌+◌, ◌-◌, ◌≤◌, ◌<◌, ◌≡◌, ◌∙◌, List, [], ◌∷◌, ◌++◌, append-nil, append_assoc, arith,
  ◌==◌, if◌then◌else◌, length, length-append, Str, ℤ, pos, negsuc, Lacks,
}

-- What `read(fd, &c, 1)` returns.
pub data ReadByte : Type 0 where
  byte : ℕ → ReadByte
  eof : ReadByte
  error : ReadByte

-- The return value, and the buffer without its NUL where the code stores one.
pub record ReadLine : Type 0 where
  pub count : ℤ
  pub buf : Str

-- The loop with `room` rounds left, at its counter `n`, after the bytes of `buf` were stored. The
-- results of later reads than the last one in the list are the end of the file.
unfoldable pub readln_loop : ℕ → ℕ → Str → ℕ → List ReadByte → ReadLine
readln_loop zero n buf eol reads = record { count = pos n; buf = buf }
readln_loop (suc room) n buf eol [] =
    if n == 1 then record { count = pos 0; buf = buf } else record { count = pos n; buf = buf }
readln_loop (suc room) n buf eol (byte c ∷ reads) =
    let rest = readln_loop room (n + 1) (buf ++ c ∷ []) eol reads in
    if c == eol then record { count = pos n; buf = buf ++ c ∷ [] } else rest
readln_loop (suc room) n buf eol (eof ∷ reads) =
    if n == 1 then record { count = pos 0; buf = buf } else record { count = pos n; buf = buf }
readln_loop (suc room) n buf eol (error ∷ reads) = record { count = negsuc 0; buf = buf }

-- `for (n = 1; n < maxlen; n++)`
unfoldable pub readln : ℕ → ℕ → List ReadByte → ReadLine
unfolding readln_loop
readln maxlen eol reads = readln_loop (maxlen - 1) 1 [] eol reads

abbrev pub bytes_of : Str → List ReadByte
bytes_of [] = []
bytes_of (c ∷ s) = byte c ∷ bytes_of s

module _ (eol : ℕ) where
  readln_loop-line :
      (s : Str) (room n : ℕ) (buf : Str) (reads : List ReadByte)
      → length s < room
      → Lacks eol s
      → readln_loop room n buf eol (bytes_of s ++ (byte eol ∷ reads))
        ≡ record { count = pos (n + length s); buf = buf ++ (s ++ eol ∷ []) }
  unfolding readln_loop
  readln_loop-line [] zero n buf reads h k = elim h [ ]
  readln_loop-line [] (suc room) n buf reads h k = ground arith
  readln_loop-line (c ∷ s) zero n buf reads h k = elim h [ ]
  readln_loop-line (c ∷ s) (suc room) n buf reads h k = ground (
    arith,
    k.0,
    readln_loop-line s room (n + 1) (buf ++ c ∷ []) reads (omega arith) k.1,
    append_assoc buf (c ∷ []) (s ++ eol ∷ []),
  )

  readln_loop-eof :
      (s : Str) (room n : ℕ) (buf : Str) (reads : List ReadByte)
      → length s < room
      → Lacks eol s
      → readln_loop room n buf eol (bytes_of s ++ (eof ∷ reads))
        ≡ record { count = pos (if n + length s == 1 then 0 else n + length s); buf = buf ++ s }
  unfolding readln_loop
  readln_loop-eof [] zero n buf reads h k = elim h [ ]
  readln_loop-eof [] (suc room) n buf reads h k = ground (arith, append-nil buf)
  readln_loop-eof (c ∷ s) zero n buf reads h k = elim h [ ]
  readln_loop-eof (c ∷ s) (suc room) n buf reads h k = ground (
    arith,
    k.0,
    readln_loop-eof s room (n + 1) (buf ++ c ∷ []) reads (omega arith) k.1,
    append_assoc buf (c ∷ []) s,
  )

  readln_loop-error :
      (s : Str) (room n : ℕ) (buf : Str) (reads : List ReadByte)
      → length s < room
      → Lacks eol s
      → readln_loop room n buf eol (bytes_of s ++ (error ∷ reads))
        ≡ record { count = negsuc 0; buf = buf ++ s }
  unfolding readln_loop
  readln_loop-error [] zero n buf reads h k = elim h [ ]
  readln_loop-error [] (suc room) n buf reads h k = ground (arith, append-nil buf)
  readln_loop-error (c ∷ s) zero n buf reads h k = elim h [ ]
  readln_loop-error (c ∷ s) (suc room) n buf reads h k = ground (
    arith,
    k.0,
    readln_loop-error s room (n + 1) (buf ++ c ∷ []) reads (omega arith) k.1,
    append_assoc buf (c ∷ []) s,
  )

  readln_loop-full :
      (s : Str) (n : ℕ) (buf : Str) (reads : List ReadByte)
      → Lacks eol s
      → readln_loop (length s) n buf eol (bytes_of s ++ reads)
        ≡ record { count = pos (n + length s); buf = buf ++ s }
  unfolding readln_loop
  readln_loop-full [] n buf reads k = ground (arith, append-nil buf)
  readln_loop-full (c ∷ s) n buf reads k = ground (
    arith,
    k.0,
    readln_loop-full s (n + 1) (buf ++ c ∷ []) reads k.1,
    append_assoc buf (c ∷ []) s,
  )

-- For a line of bytes that are not the end-of-line byte and that fits the buffer with it and the
-- terminating null: with the end-of-line byte behind it, `readln` stores the line with that byte and
-- returns the number of bytes stored; when the file ends behind the line, it stores the line and
-- returns one more than the number of bytes stored, but 0 when no byte was read; and when an error
-- comes behind the line it returns -1.
pub readln_lem :
    (maxlen eol : ℕ) (s : Str) (reads : List ReadByte)
    → Lacks eol s
    → length s + 2 ≤ maxlen
    → (readln maxlen eol (bytes_of s ++ (byte eol ∷ reads))
        ≡ record { count = pos (length (s ++ eol ∷ [])); buf = s ++ eol ∷ [] })
      × (readln maxlen eol (bytes_of s ++ (eof ∷ reads))
          ≡ record { count = pos (if length s == 0 then 0 else length s + 1); buf = s })
      × (readln maxlen eol (bytes_of s ++ (error ∷ reads)) ≡ record { count = negsuc 0; buf = s })
unfolding readln
readln_lem maxlen eol s reads k room = (
  readln_loop-line eol s (maxlen - 1) 1 [] reads (omega arith) k
      ∙ ground (arith, length-append s (eol ∷ [])),
  readln_loop-eof eol s (maxlen - 1) 1 [] reads (omega arith) k ∙ ground arith,
  readln_loop-error eol s (maxlen - 1) 1 [] reads (omega arith) k,
)

-- When a line of bytes that are not the end-of-line byte fills the buffer up to its terminating null,
-- `readln` stores it, returns one more than the number of bytes stored, and reads no further.
pub readln_full :
    (maxlen eol : ℕ) (s : Str) (reads : List ReadByte)
    → Lacks eol s
    → length s + 1 ≡ maxlen
    → readln maxlen eol (bytes_of s ++ reads) ≡ record { count = pos (length s + 1); buf = s }
unfolding readln
readln_full maxlen eol s reads k full =
    let e : maxlen - 1 ≡ length s = omega arith in
    rw e (readln_loop-full eol s 1 [] reads k ∙ ground arith)
