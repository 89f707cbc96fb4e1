-- ===== src/Exercises/Stdio/Files.antt =====
-- 14-1-26/8-4.c: the functions that open, flush, move and close a file, and the table `_iob`.
use intern_status_update.Base.{
  ℕ, zero, suc, [], ◌∷◌, List, Bytes, Bool, true, false, not, ◌&&◌, ◌||◌, Option, none, some, Run,
  ok, ◌>>=◌, deref, if◌then◌else◌, ◌==◌, get_elem?, set,
}
use intern_status_update.Base.Int.{ℤ, pos, int_eq, no_fd}
use intern_status_update.Exercises.Stdio.{
  Kernel, File, buf_size, end_of_file, non_negative, rewind, Result, broken, write_pending, my_putc,
  my_getc,
}

-- `fclose` leaves nothing of a file.
unfoldable pub closed : File → File
closed f = record {
  cnt = pos 0;
  ptr = none;
  base = none;
  read = false;
  write = false;
  unbuf = false;
  eof = false;
  err = false;
  fd = if non_negative f.fd then no_fd else f.fd;
}

-- An unused file that `fopen` takes.
unfoldable pub opened : ℤ → Bool → File → File
opened fd reading f = record f {
  fd = fd;
  cnt = pos 0;
  base = none;
  ptr = none;
  read = reading;
  write = not reading;
  unbuf = false;
  eof = false;
  err = false;
}

-- One for which there is no descriptor.
unfoldable pub cleared : File → File
cleared f = record f {
  ptr = none;
  cnt = pos 0;
  read = false;
  write = false;
  unbuf = false;
  eof = false;
  err = false;
}

-- The first file that is neither read nor written.
unfoldable pub free_slot : List File → Option ℕ
free_slot [] = none
free_slot (f ∷ files) =
    let rest = free_slot files in
    if not f.read && not f.write then some 0 else elim rest [ none ↦ none | some i ↦ some (suc i) ]

module _ (k : Kernel) where
  -- What stands in the buffer, if there is one.
  unfoldable pub write_buffered : Option Bytes → File → k.State → Run (Bool × k.State)
  write_buffered none f s = ok (true, s)
  write_buffered (some b) f s = write_pending k f s

  unfoldable pub flush_file : File → k.State → Result k
  flush_file f s =
      let flush : Result k = (do
        (sent, s1) ← write_buffered f.base f s
        if sent then ok (pos 0, rewind (record f { cnt = pos buf_size }), s1) else broken k f s1) in
      if not f.write || f.err
      then ok (end_of_file, f, s)
      else if f.unbuf
      then ok (pos 0, f, s)
      else flush

  unfoldable pub close_file : File → k.State → Result k
  close_file f s = do
    (sent, s1) ← (if f.write then write_buffered f.base f s else ok (true, s))
    if sent
        then ok (pos 0, closed f, if non_negative f.fd then k.close f.fd s1 else s1)
        else broken k f s1

  unfoldable pub seek_file : ℤ → ℕ → File → k.State → Result k
  seek_file offset from f s = do
    (r, f1, s1) ← (if f.write then flush_file f s else ok (pos 0, f, s))
    let (p, s2) = k.lseek f1.fd offset from s1
    if int_eq r end_of_file
        then ok (no_fd, f1, s1)
        else if int_eq p no_fd
        then ok (no_fd, f1, s2)
        else ok (pos 0, rewind (record f1 { cnt = pos 0; eof = false }), s2)

  -- `for (int i = 0; i < strlen(str); i++) my_putc(str[i], fp);` of 8-3.c.
  unfoldable pub put_text : Bytes → File → k.State → Run (File × k.State)
  put_text [] f s = ok (f, s)
  put_text (c ∷ text) f s = do (r, f1, s1) ← my_putc k c f s; put_text text f1 s1

  -- `while ((c = my_getc(fp)) != EOF) printf("%c", c);` of 8-3.c, for so many calls; none when they
  -- are not enough.
  unfoldable pub get_text : ℕ → File → k.State → Run (Option (List ℤ) × File × k.State)
  get_text zero f s = ok (none, f, s)
  get_text (suc n) f s = do
    (c, f1, s1) ← my_getc k f s
    let more : Run (Option (List ℤ) × File × k.State) = (do
      (text, f2, s2) ← get_text n f1 s1
      ok (elim text [ none ↦ none | some cs ↦ some (c ∷ cs) ], f2, s2))
    if int_eq c end_of_file then ok (some [], f1, s1) else more

  -- `_iob` and the kernel.
  pub record Process : Type 0 where
    pub files : List File
    pub state : k.State

  -- A function on a file through its pointer, with what it answers for NULL.
  unfoldable pub on_file : (File → k.State → Result k) → ℤ → Option ℕ → Process → Run (ℤ × Process)
  on_file act null none p = ok (null, p)
  on_file act null (some i) p = do
    f ← deref (get_elem? p.files i)
    (r, f1, s1) ← act f p.state
    ok (r, record { files = set p.files i f1; state = s1 })

  unfoldable pub my_fclose : Option ℕ → Process → Run (ℤ × Process)
  my_fclose = on_file close_file end_of_file

  unfoldable pub my_fflush : Option ℕ → Process → Run (ℤ × Process)
  my_fflush = on_file flush_file (pos 0)

  unfoldable pub my_fseek : ℤ → ℕ → Option ℕ → Process → Run (ℤ × Process)
  my_fseek offset from = on_file (seek_file offset from) no_fd

  -- The descriptor for a mode.
  unfoldable pub open_fd : ℕ → Bytes → k.State → ℤ × k.State
  open_fd mode name s =
      let (old, s1) = k.open_file name true s in
      let (fd, s2) = if int_eq old no_fd then k.creat name s1 else (old, s1) in
      if mode == b'w'
      then k.creat name s
      else if mode == b'a'
      then (fd, (k.lseek fd (pos 0) 2 s2).1)
      else k.open_file name false s

  -- `mode` is its first byte. A file that cannot be opened is left cleared.
  unfoldable pub my_fopen : Bytes → ℕ → Process → Run (Option ℕ × Process)
  my_fopen name mode p =
      let known = mode == b'r' || (mode == b'w' || mode == b'a') in
      if not known then ok (none, p) else elim (free_slot p.files) [
        | none ↦ ok (none, p)
        | some i ↦ do
          f ← deref (get_elem? p.files i)
          let (fd, s1) = open_fd mode name p.state
          let taken = if int_eq fd no_fd then cleared f else opened fd (mode == b'r') f
          ok (
            if int_eq fd no_fd then none else some i,
            record { files = set p.files i taken; state = s1 },
          )
      ]
