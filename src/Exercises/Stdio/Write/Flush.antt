-- ===== src/Exercises/Stdio/Write/Flush.antt =====
-- 14-1-26/8-4.c: `my_fflush`.
use intern_status_update.Base.{
  ℕ, ◌≡◌, refl, sym, ap, ◌∙◌, inl, inr, ◌⊎◌, [], ◌++◌, Bytes, true, ok, fault, length,
  length-append, append-nil, Bool-cases, arith,
}
use intern_status_update.Base.Int.{int_pred, ℤ, pos}
use intern_status_update.Exercises.Stdio.{Kernel, File, end_of_file, write_ptr, my_putc}
use intern_status_update.Exercises.Stdio.Files.{write_buffered, flush_file}
use intern_status_update.Exercises.Stdio.Write.{
  buffering, writable, Pending, Writes, write_pending-Sent,
}

module _ (k : Kernel) (fd : ℤ) (w : Writes k fd) where
  -- After a flush that returned 0.
  abbrev pub Flushed : File → Bytes → k.State → File → k.State → Type 0
  Flushed f bytes s f1 s1 =
      (w.written s1 ≡ w.written s ++ bytes)
      × (Pending fd f1 [] ⊎ ((f ≡ writable fd) × ((c : ℕ) → my_putc k c f1 s1 ≡ fault)))

  -- Flushing a file in order for writing returns. If it returns 0, the kernel has all that waited,
  -- and the file is in order with nothing waiting, unless nothing was ever put into it: then the
  -- next my_putc writes through the null pointer.
  pub flush_file-Flushed :
      (f : File) (bytes : Bytes) (s : k.State)
      → Pending fd f bytes
      → (r : ℤ) × (f1 : File) × (s1 : k.State) × (flush_file k f s ≡ ok (r, f1, s1))
        × (r ≡ pos 0 → Flushed f bytes s f1 s1)
  unfolding flush_file write_buffered my_putc int_pred write_ptr
  flush_file-Flushed f bytes s (inl (e, none_left)) = (
    pos 0,
    record (writable fd) { cnt = pos 1024 },
    s,
    (rw e refl),
    λ _. (sym (ap (λ b. w.written s ++ b) none_left ∙ append-nil _), inr (e, λ c. refl)),
  )
  flush_file-Flushed f bytes s (inr (rest, m, e, fits, total)) =
      let (sent, s1, run, all) = write_pending-Sent k fd w bytes rest (pos m) s in
      let long : length (bytes ++ rest) ≡ 1024 = omega (arith, length-append bytes rest) in
      elim (Bool-cases sent) [
        | inl went ↦ (
          pos 0,
          buffering fd [] (bytes ++ rest) 1024,
          s1,
          (rw (e, run, went) refl),
          λ _. (all went, inl (inr (bytes ++ rest, 1024, refl, omega arith, omega arith))),
        )
        | inr failed ↦ (
          end_of_file,
          record (buffering fd bytes rest m) { err = true },
          s1,
          (rw (e, run, failed) refl),
          λ zero_. cc,
        )
      ]
