-- ===== src/Exercises/Stdio/Read/Text.antt =====
-- 14-1-26/8-4.c: a file is read to its end, and again after a seek.
use intern_status_update.Base.{
  ℕ, zero, suc, ◌<◌, ◌≡◌, ◌≢◌, refl, ap, inl, inr, [], ◌++◌, Bytes, Bool, false, some, ok, map,
  length, arith, Bool-cases,
}
use intern_status_update.Base.Int.{ℤ, pos, int_eq, int_eq_iff, no_fd}
use intern_status_update.Exercises.Stdio.{Kernel, File, rewind}
use intern_status_update.Exercises.Stdio.Files.{seek_file, get_text}
use intern_status_update.Exercises.Stdio.Read.{holding, readable, Ahead, Reads, my_getc-Taken}

int_ne : (a b : ℤ) → a ≢ b → int_eq a b ≡ false
int_ne a b h = elim (Bool-cases (int_eq a b)) [
  | inl e ↦ absurd (h ((int_eq_iff a b).0 e))
  | inr e ↦ e
]

module _ (k : Kernel) (fd : ℤ) (w : Reads k fd) where
  -- From a file in order with any bytes ready in its buffer, the loop that reads up to EOF gives
  -- these bytes and then all that are left, once each and in their order, however the kernel cuts
  -- them; one call more than they are is enough.
  pub get_text-left :
      (n : ℕ) (f : File) (bytes : Bytes) (s : k.State)
      → Ahead fd f bytes
      → length (bytes ++ w.left s) < n
      → (f1 : File) × (s1 : k.State) × (get_text k n f s
          ≡ ok (some (map pos (bytes ++ w.left s)), f1, s1))
  unfolding get_text
  get_text-left zero f bytes s v enough = absurd (omega arith)
  get_text-left (suc n) f bytes s v enough = elim (my_getc-Taken k fd w f bytes s v) [
    | inl (c, f1, s1, bytes1, run, v1, same) ↦
        let (f2, s2, run2) = get_text-left n f1 bytes1 s1 v1 (omega (arith, ap length same)) in
        (f2, s2, (rw (run, run2, same) refl))
    | inr (f1, s1, run, end) ↦ (f1, s1, (rw (run, end) refl))
  ]

  -- The file behind a seek, of a buffer or none: nothing stands ready.
  seek_file-rewind :
      (e : Bool) (offset : ℤ) (from : ℕ) (f : File) (s : k.State)
      → f.write ≡ false
      → f.fd ≡ fd
      → (k.lseek fd offset from s).0 ≢ no_fd
      → seek_file k offset from (record f { eof = e }) s
        ≡ ok (pos 0, rewind (record f { cnt = pos 0; eof = false }), (k.lseek fd offset from s).1)
  unfolding seek_file
  seek_file-rewind e offset from f s reading same moved =
      simp (reading, same, int_ne _ _ moved) refl

  seek-Ahead :
      (e : Bool) (offset : ℤ) (from : ℕ) (f : File) (bytes : Bytes) (s : k.State)
      → Ahead fd f bytes
      → (k.lseek fd offset from s).0 ≢ no_fd
      → (f1 : File) × (seek_file k offset from (record f { eof = e }) s
          ≡ ok (pos 0, f1, (k.lseek fd offset from s).1))
        × Ahead fd f1 []
  seek-Ahead e offset from f bytes s (inl (same, nothing)) moved = rw same (
    readable fd,
    seek_file-rewind e offset from (readable fd) s refl refl moved,
    inl (refl, refl),
  )
  seek-Ahead e offset from f bytes s (inr (pre, tail, same, long)) moved = rw same (
    holding fd [] [] (pre ++ (bytes ++ tail)),
    seek_file-rewind e offset from (holding fd pre bytes tail) s refl refl moved,
    inr ([], pre ++ (bytes ++ tail), refl, long),
  )

  -- A seek of a file in order, its end met or not, that `lseek` grants returns 0, and the file then
  -- reads as what the kernel has left from its new position: nothing of the buffer is read again.
  pub get_text-seek_file :
      (n : ℕ) (e : Bool) (offset : ℤ) (from : ℕ) (f : File) (bytes : Bytes) (s : k.State)
      → Ahead fd f bytes
      → (k.lseek fd offset from s).0 ≢ no_fd
      → length (w.left (k.lseek fd offset from s).1) < n
      → (f1 : File) × (f2 : File) × (s2 : k.State) × (seek_file k offset from
            (record f { eof = e })
            s
          ≡ ok (pos 0, f1, (k.lseek fd offset from s).1))
        × (get_text k n f1 (k.lseek fd offset from s).1
            ≡ ok (some (map pos (w.left (k.lseek fd offset from s).1)), f2, s2))
  get_text-seek_file n e offset from f bytes s v moved enough =
      let (f1, run, v1) = seek-Ahead e offset from f bytes s v moved in
      let (f2, s2, run2) = get_text-left n f1 [] (k.lseek fd offset from s).1 v1 enough in
      (f1, f2, s2, run, run2)
