-- ===== src/Exercises/Stdio/Write.antt =====
-- 14-1-26/8-4.c: what is put into a file reaches the kernel in order, through the buffer.
pub mod Text
pub mod Flush
use intern_status_update.Base.{
  ℕ, zero, suc, ◌+◌, ◌≤◌, ◌≡◌, refl, sym, ap, subst, ◌∙◌, inl, inr, ◌⊎◌, [], ◌∷◌, ◌++◌, List, Bytes,
  Bool, true, false, Option, none, some, Run, ok, fault, ◌>>=◌, deref, if◌then◌else◌, ◌==◌, length,
  length-append, append_assoc, append-nil, store, set, lt→ltb, ltb, store-append, copy_from, drop,
  length-drop, take_exact, take_exact-append, Bool-cases, Option-cases, arith, ==_iff,
}
use intern_status_update.Base.Int.{int_pred, ℤ, pos, negsuc, int_eq, int_eq_iff, no_fd}
use intern_status_update.Frame.Decode.{nil_of_length}
use intern_status_update.Exercises.Stdio.{
  Kernel, File, buf_size, end_of_file, non_negative, as_char, write_ptr, rewind, Result, broken,
  with_buffer, write_pending, flush_unbuffered, flush_buffered, my_flushbuf, my_putc,
}
use intern_status_update.Exercises.Stdio.Files.{
  closed, opened, write_buffered, flush_file, close_file,
}

-- A file opened for writing with its buffer: `bytes` wait in it, and `m` more may be put before it
-- is flushed.
abbrev pub buffering : ℤ → Bytes → Bytes → ℕ → File
buffering fd bytes rest m = record {
  cnt = pos m;
  ptr = some (length bytes);
  base = some (bytes ++ rest);
  read = false;
  write = true;
  unbuf = false;
  eof = false;
  err = false;
  fd = fd;
}

-- The same before the first byte is put.
abbrev pub writable : ℤ → File
writable fd = record {
  cnt = pos 0;
  ptr = none;
  base = none;
  read = false;
  write = true;
  unbuf = false;
  eof = false;
  err = false;
  fd = fd;
}

-- The file is in order for writing, and these bytes wait in it.
abbrev pub Pending : ℤ → File → Bytes → Type 0
Pending fd f bytes =
    ((f ≡ writable fd) × (bytes ≡ []))
    ⊎ ((rest : Bytes) × (m : ℕ) × (f ≡ buffering fd bytes rest m)
        × (m ≤ length rest)
        × (length bytes + length rest ≡ 1024))

-- What `write`, `malloc` and `close` do: a `write` that returns the number of the bytes appended
-- them to what was written, and memory has the size that was asked for.
pub record Writes (k : Kernel) (fd : ℤ) : Type 0 where
  pub written : k.State → Bytes
  pub write :
      (bytes : Bytes) (s : k.State)
      → (k.write fd bytes s).0 ≡ pos (length bytes)
      → written (k.write fd bytes s).1 ≡ written s ++ bytes
  pub malloc : (n : ℕ) (s : k.State) → written (k.malloc n s).1 ≡ written s
  pub size : (n : ℕ) (s : k.State) (b : Bytes) → (k.malloc n s).0 ≡ some b → length b ≡ n
  pub close : (s : k.State) → written (k.close fd s) ≡ written s

module _ (k : Kernel) (fd : ℤ) (w : Writes k fd) where
  -- There is room in the buffer.
  my_putc-room :
      (c x m : ℕ) (bytes rest : Bytes) (s : k.State)
      → my_putc k c (buffering fd bytes (x ∷ rest) (suc m)) s
        ≡ ok (as_char c, buffering fd (bytes ++ c ∷ []) rest m, s)
  unfolding my_putc write_ptr int_pred
  my_putc-room c x m bytes rest s =
      let next : length (bytes ++ c ∷ []) ≡ length bytes + 1 =
        omega (arith, length-append bytes (c ∷ [])) in
      rw (store-append bytes x c rest, next, append_assoc) refl

  -- The waiting bytes are handed to the kernel, unless there are none.
  pub write_pending-Sent :
      (bytes rest : Bytes) (m : ℤ) (s : k.State)
      → (sent : Bool) × (s1 : k.State) × (write_pending k
            (record (buffering fd bytes rest 0) { cnt = m })
            s
          ≡ ok (sent, s1))
        × (sent ≡ true → w.written s1 ≡ w.written s ++ bytes)
  unfolding write_pending
  write_pending-Sent bytes rest m s = elim (Bool-cases (length bytes == 0)) [
    | inl e ↦
        let none_left : bytes ≡ [] = nil_of_length bytes ((==_iff (length bytes) 0).0 e) in
        (
          true,
          s,
          (rw (take_exact-append bytes rest, e) refl),
          λ _. sym (ap (λ b. w.written s ++ b) none_left ∙ append-nil (w.written s)),
        )
    | inr e ↦ (
      int_eq (k.write fd bytes s).0 (pos (length bytes)),
      (k.write fd bytes s).1,
      (rw (take_exact-append bytes rest, e) refl),
      λ all. w.write bytes s ((int_eq_iff _ _).0 all),
    )
  ]

  start_over :
      (c : ℕ) (all : Bytes)
      → length all ≡ 1024
      → write_ptr c (record (buffering fd [] all 1023) { ptr = some 0 })
        ≡ ok (buffering fd (c ∷ []) (drop 1 all) 1023)
  unfolding write_ptr
  start_over c [] h = absurd (omega arith)
  start_over c (x ∷ tail) h = rw (store-append [] x c tail) refl

  -- After a failed `write` nothing is put any more.
  abbrev pub Stuck : File → Type 0
  Stuck f = (g : File) × (m : ℕ) × (f ≡ record g { cnt = negsuc m; err = true })

  -- The file stands as if `text` had been put behind `bytes`, or is stuck.
  abbrev pub Stands : Bytes → Bytes → k.State → File → k.State → Type 0
  Stands text bytes s f1 s1 =
      ((bytes1 : Bytes) × Pending fd f1 bytes1
        × (w.written s1 ++ bytes1 ≡ (w.written s ++ bytes) ++ text))
      ⊎ Stuck f1

  abbrev pub Put : ℕ → Bytes → k.State → Result k → Type 0
  Put c bytes s run =
      (r : ℤ) × (f1 : File) × (s1 : k.State) × (run ≡ ok (r, f1, s1))
      × Stands (c ∷ []) bytes s f1 s1

  flush_buffered-Put :
      (c m : ℕ) (bytes rest : Bytes) (s : k.State)
      → length bytes + length rest ≡ 1024
      → Put c bytes s (flush_buffered k c (record (buffering fd bytes rest 0) { cnt = negsuc m }) s)
  unfolding flush_buffered
  flush_buffered-Put c m bytes rest s total =
      let (sent, s1, run, all) = write_pending-Sent bytes rest (negsuc m) s in
      let long : length (bytes ++ rest) ≡ 1024 = omega (arith, length-append bytes rest) in
      let left = length-drop 1 (bytes ++ rest) in
      elim (Bool-cases sent) [
        | inl e ↦ (
          pos c,
          buffering fd (c ∷ []) (drop 1 (bytes ++ rest)) 1023,
          s1,
          (rw (run, e, start_over c (bytes ++ rest) long) refl),
          inl (
            c ∷ [],
            inr (drop 1 (bytes ++ rest), 1023, refl, omega arith, omega arith),
            ap (λ b. b ++ c ∷ []) (all e),
          ),
        )
        | inr e ↦ (
          end_of_file,
          record (buffering fd bytes rest 0) { cnt = negsuc m; err = true },
          s1,
          (rw (run, e) refl),
          inr (buffering fd bytes rest 0, m, refl),
        )
      ]

  flush_new-Put :
      (c : ℕ) (b : Bytes) (s : k.State)
      → length b ≡ 1024
      → Put c [] s (flush_buffered k c (record (buffering fd [] b 0) { cnt = pos 1024 }) s)
  unfolding flush_buffered write_pending take_exact
  flush_new-Put c b s long =
      let left = length-drop 1 b in
      (
        pos c,
        buffering fd (c ∷ []) (drop 1 b) 1023,
        s,
        (rw (start_over c b long) refl),
        inl (
          c ∷ [],
          inr (drop 1 b, 1023, refl, omega arith, omega arith),
          ap (λ x. x ++ c ∷ []) (sym (append-nil (w.written s))),
        ),
      )

  -- A step that leaves what was written.
  Put-after :
      (c : ℕ) (bytes : Bytes) (s s1 : k.State) (run : Result k)
      → w.written s1 ≡ w.written s
      → Put c bytes s1 run
      → Put c bytes s run
  Put-after c bytes s s1 run same (r, f2, s2, e, stands) = (r, f2, s2, e, (rw same at stands))

  -- The first byte of a file allocates its buffer.
  my_flushbuf_first :
      (c : ℕ) (s : k.State)
      → Put c [] s (my_flushbuf k c (record (writable fd) { cnt = negsuc 0 }) s)
  unfolding my_flushbuf with_buffer
  my_flushbuf_first c s = elim (Option-cases (k.malloc 1024 s).0) [
    | inl e ↦ rw e (
      end_of_file,
      record (writable fd) { cnt = negsuc 0; err = true },
      (k.malloc 1024 s).1,
      refl,
      inr (writable fd, 0, refl),
    )
    | inr (b, e) ↦ rw e (
        Put-after c [] s (k.malloc 1024 s).1 _ (w.malloc 1024 s)
          (flush_new-Put c b (k.malloc 1024 s).1 (w.size 1024 s b e)))
  ]

  my_putc_pending :
      (c m : ℕ) (bytes rest : Bytes) (s : k.State)
      → m ≤ length rest
      → length bytes + length rest ≡ 1024
      → Put c bytes s (my_putc k c (buffering fd bytes rest m) s)
  my_putc_pending c zero bytes rest s fits total =
      (unfold my_putc int_pred my_flushbuf with_buffer in flush_buffered-Put c 0 bytes rest s total)
  my_putc_pending c (suc m) bytes [] s fits total = absurd (omega arith)
  my_putc_pending c (suc m) bytes (x ∷ rest) s fits total =
      let more = length-append bytes (c ∷ []) in
      (
        as_char c,
        buffering fd (bytes ++ c ∷ []) rest m,
        s,
        my_putc-room c x m bytes rest s,
        inl (
          bytes ++ c ∷ [],
          inr (rest, m, refl, omega arith, omega arith),
          sym (append_assoc (w.written s) bytes (c ∷ [])),
        ),
      )

  pub my_putc-Put :
      (c : ℕ) (bytes : Bytes) (f : File) (s : k.State)
      → Pending fd f bytes
      → Put c bytes s (my_putc k c f s)
  unfolding my_putc int_pred
  my_putc-Put c bytes f s (inl (e, none_left)) = rw (e, none_left) (my_flushbuf_first c s)
  my_putc-Put c bytes f s (inr (rest, m, e, fits, total)) =
      rw e (my_putc_pending c m bytes rest s fits total)
