-- ===== src/Exercises/Stdio.antt =====
-- 14-1-26/8-4.c: buffered files. The system calls and `malloc` are a parameter. A `MY_FILE *` is a place
-- of `_iob`; the functions on one file take the file and the kernel's state and return them.
pub mod Files
pub mod Read
pub mod Write
pub mod Open
mod Tests
use intern_status_update.Base.{
  ℕ, zero, suc, ◌+◌, ◌-◌, [], ◌∷◌, List, Bytes, Bool, true, false, not, ◌&&◌, ◌||◌, Option, none,
  some, Run, ok, fault, ◌>>=◌, deref, if◌then◌else◌, ltb, ◌==◌, length, set, get_elem?, read_at,
  store, store_all, copy_from, replicate,
}
use intern_status_update.Base.Int.{int_pred, ℤ, pos, negsuc, int_eq, no_fd}

-- What `read` returns.
pub data Answer : Type 0 where
  got : Bytes → Answer
  failed : Answer

-- The calls of the kernel for one process, and `malloc`; -1 is failure where they return a number.
pub record Kernel : Type 1 where
  pub State : Type 0
  pub malloc : ℕ → State → Option Bytes × State
  pub read : ℤ → ℕ → State → Answer × State
  pub write : ℤ → Bytes → State → ℤ × State
  pub lseek : ℤ → ℤ → ℕ → State → ℤ × State
  pub open_file : Bytes → Bool → State → ℤ × State
  pub creat : Bytes → State → ℤ × State
  pub close : ℤ → State → State

-- `ptr` is an offset into the array `base`; none is NULL, for both.
pub record File : Type 0 where
  pub cnt : ℤ
  pub ptr : Option ℕ
  pub base : Option Bytes
  pub read : Bool
  pub write : Bool
  pub unbuf : Bool
  pub eof : Bool
  pub err : Bool
  pub fd : ℤ

abbrev pub buf_size : ℕ
buf_size = 1024

-- `EOF`
abbrev pub end_of_file : ℤ
end_of_file = negsuc 0

abbrev pub non_negative : ℤ → Bool
non_negative (pos n) = true
non_negative (negsuc n) = false

-- The value of a `char`, which is signed.
unfoldable pub as_char : ℕ → ℤ
as_char c = if ltb c 128 then pos c else negsuc (255 - c)

-- `*ptr++`
unfoldable pub read_ptr : File → Run (ℕ × File)
read_ptr f = do
  i ← deref f.ptr
  b ← deref f.base
  c ← read_at b i
  ok (c, record f { ptr = some (i + 1) })

-- `*ptr++ = c`
unfoldable pub write_ptr : ℕ → File → Run File
write_ptr c f = do
  i ← deref f.ptr
  b ← deref f.base
  b1 ← store b i c
  ok (record f { base = some b1; ptr = some (i + 1) })

-- `ptr = base`
abbrev pub rewind : File → File
rewind f = record f { ptr = elim f.base [ none ↦ none | some b ↦ some 0 ] }

-- A file that is never opened, as `_iob` holds after its three first ones.
abbrev pub unused : File
unused = record {
  cnt = pos 0;
  ptr = none;
  base = none;
  read = false;
  write = false;
  unbuf = false;
  eof = false;
  err = false;
  fd = pos 0;
}

unfoldable pub initial_files : List File
initial_files =
    record unused { read = true }
    ∷ record unused { write = true; fd = pos 1 }
    ∷ record unused { write = true; unbuf = true; fd = pos 2 }
    ∷ replicate 17 unused

module _ (k : Kernel) where
  -- What a function on a file returns.
  abbrev pub Result : Type 0
  Result = Run (ℤ × File × k.State)

  -- An error: the flag, and `EOF`.
  abbrev pub broken : File → k.State → Result
  broken f s = ok (end_of_file, record f { err = true }, s)

  -- `fp->base`, allocated if it is NULL; false if that fails.
  unfoldable pub with_buffer : ℕ → Option Bytes → File → k.State → Bool × File × k.State
  with_buffer size (some b) f s = (true, f, s)
  with_buffer size none f s =
      let (memory, s1) = k.malloc size s in
      elim memory [
        | none ↦ (false, f, s1)
        | some b ↦ (true, record f { base = some b; ptr = some 0; cnt = pos size }, s1)
      ]

  -- `write(fp->fd, fp->base, n)` for the n bytes in front of `ptr`, if there are any: whether it
  -- took them all.
  unfoldable pub write_pending : File → k.State → Run (Bool × k.State)
  write_pending f s = do
    n ← deref f.ptr
    b ← deref f.base
    bytes ← copy_from b 0 n
    let (r, s1) = k.write f.fd bytes s
    ok (if n == 0 then (true, s) else (int_eq r (pos n), s1))

  unfoldable pub flush_unbuffered : ℕ → File → k.State → Result
  flush_unbuffered c f s =
      let (r, s1) = k.write f.fd (c ∷ []) s in
      if int_eq r (pos 1) then ok (pos c, f, s1) else broken f s1

  -- Behind the allocation.
  unfoldable pub flush_buffered : ℕ → File → k.State → Result
  flush_buffered c f s = do
    (sent, s1) ← write_pending f s
    if sent
        then (do
          f1 ← write_ptr c (rewind (record f { cnt = pos (buf_size - 1) }))
          ok (pos c, f1, s1))
        else broken f s1

  unfoldable pub my_flushbuf : ℕ → File → k.State → Result
  my_flushbuf c f s =
      let (allocated, f1, s1) = with_buffer buf_size f.base f s in
      if not f.write || f.err
      then ok (end_of_file, f, s)
      else if f.unbuf
      then flush_unbuffered c f s
      else if allocated
      then flush_buffered c f1 s1
      else broken f1 s1

  unfoldable pub my_putc : ℕ → File → k.State → Result
  my_putc c f s =
      let f1 = record f { cnt = int_pred f.cnt } in
      if non_negative f1.cnt
      then (do f2 ← write_ptr c f1; ok (as_char c, f2, s))
      else my_flushbuf c f1 s

  -- What `read` left in the buffer: the bytes over its start.
  unfoldable pub fill : Answer → File → k.State → Result
  fill failed f s = ok (end_of_file, record f { err = true; cnt = pos 0 }, s)
  fill (got []) f s = ok (end_of_file, record f { eof = true; cnt = pos 0 }, s)
  fill (got (c ∷ bytes)) f s = do
    b ← deref f.base
    b1 ← store_all b 0 (c ∷ bytes)
    (first, f1) ← read_ptr (record f { base = some b1; cnt = pos (length bytes) })
    ok (pos first, f1, s)

  unfoldable pub my_fillbuf : File → k.State → Result
  my_fillbuf f s =
      let size = if f.unbuf then 1 else buf_size in
      let (allocated, f1, s1) = with_buffer size f.base f s in
      let (answer, s2) = k.read f.fd size s1 in
      if not f.read || (f.eof || f.err)
      then ok (end_of_file, f, s)
      else if allocated
      then fill answer (rewind f1) s2
      else ok (end_of_file, f1, s1)

  unfoldable pub my_getc : File → k.State → Result
  my_getc f s =
      let f1 = record f { cnt = int_pred f.cnt } in
      if non_negative f1.cnt then (do (c, f2) ← read_ptr f1; ok (pos c, f2, s)) else my_fillbuf f1 s
