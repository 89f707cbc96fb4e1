-- ===== src/Exercises/Stdio/Tests.antt =====
-- Files over a kernel with one input, which it gives in pieces of two bytes, and one output.
use intern_status_update.Exercises.Stdio.Open.{FreeAt, my_fopen-FreeAt}
use intern_status_update.Base.{
  ℕ, zero, suc, ◌≤◌, ◌≡◌, ◌≢◌, refl, inl, [], ◌∷◌, ◌++◌, Bytes, true, Option, some, ok, ap, map,
  codes, length, take, drop, replicate, length-replicate, some-injective, arith, sym, ◌∙◌, min, set,
}
use intern_status_update.Base.Int.{ℤ, pos, no_fd}
use intern_status_update.Exercises.Stdio.{Kernel, File, got, initial_files}
use intern_status_update.Exercises.Stdio.Files.{flush_file, seek_file, get_text, Process, my_fopen}
use intern_status_update.Exercises.Stdio.Write.{writable, Writes}
use intern_status_update.Exercises.Stdio.Write.Flush.{Flushed, flush_file-Flushed}
use intern_status_update.Exercises.Stdio.Read.{readable, Reads}
use intern_status_update.Exercises.Stdio.Read.Text.{get_text-left, get_text-seek_file}

-- The input that is left, and what was written.
abbrev two_files : Kernel
two_files = record {
  State = Bytes × Bytes;
  malloc = λ n s. (some (replicate n 0), s);
  read = λ fd n s. (got (take (min n 2) s.0), (drop (min n 2) s.0, s.1));
  write = λ fd bytes s. (pos (length bytes), (s.0, s.1 ++ bytes));
  lseek = λ fd offset from s. (pos 0, (codes "again", s.1));
  open_file = λ name writing s. (pos 3, s);
  creat = λ name s. (pos 3, s);
  close = λ fd s. s;
}

take-append-drop : (n : ℕ) (xs : Bytes) → xs ≡ take n xs ++ drop n xs
unfolding take
take-append-drop zero xs = refl
take-append-drop (suc n) [] = refl
take-append-drop (suc n) (x ∷ xs) = ap (λ t. x ∷ t) (take-append-drop n xs)

length-take : (n : ℕ) (xs : Bytes) → length (take n xs) ≤ n
unfolding take
length-take zero xs = omega arith
length-take (suc n) [] = omega arith
length-take (suc n) (x ∷ xs) = omega (arith, length-take n xs)

take_none : (n : ℕ) (xs : Bytes) → 1 ≤ n → take n xs ≡ [] → xs ≡ []
unfolding take
take_none zero xs h e = absurd (omega arith)
take_none (suc n) [] h e = refl
take_none (suc n) (x ∷ xs) h e = cc

two_files-Writes : Writes two_files (pos 3)
two_files-Writes = record {
  written = λ s. s.1;
  write = λ bytes s full. refl;
  malloc = λ n s. refl;
  size = λ n s b e. ap length (some-injective (sym e)) ∙ length-replicate n 0;
  close = λ s. refl;
}

two_files-Reads : Reads two_files (pos 3)
two_files-Reads = record {
  left = λ s. s.0;
  read = λ n s. (
    take (min n 2) s.0,
    refl,
    take-append-drop (min n 2) s.0,
    omega (arith, length-take (min n 2) s.0),
    λ h e. take_none (min n 2) s.0 (omega arith) e,
  );
  malloc = λ n s. (replicate n 0, refl, length-replicate n 0, refl);
}

flush_file-Flushed_example :
    (r : ℤ) × (f1 : File) × (s1 : Bytes × Bytes) × (flush_file two_files (writable (pos 3)) ([], [])
      ≡ ok (r, f1, s1))
    × (r ≡ pos 0 → Flushed two_files (pos 3) two_files-Writes (writable (pos 3)) [] ([], []) f1 s1)
flush_file-Flushed_example =
    flush_file-Flushed two_files (pos 3) two_files-Writes (writable (pos 3)) [] ([], [])
      (inl (refl, refl))

get_text-left_example :
    (f1 : File) × (s1 : Bytes × Bytes) × (get_text two_files 4 (readable (pos 3)) (codes "abc", [])
      ≡ ok (some (map pos (codes "abc")), f1, s1))
unfolding two_files-Reads
get_text-left_example =
    get_text-left two_files (pos 3) two_files-Reads 4 (readable (pos 3)) [] (codes "abc", [])
      (inl (refl, refl)) (omega arith)

get_text-seek_file_example :
    (f1 : File) × (f2 : File) × (s2 : Bytes × Bytes) × (seek_file two_files
        (pos 0)
        0
        (record (readable (pos 3)) { eof = true })
        (codes "abc", [])
      ≡ ok (pos 0, f1, (codes "again", [])))
    × (get_text two_files 6 f1 (codes "again", []) ≡ ok (some (map pos (codes "again")), f2, s2))
unfolding two_files-Reads
get_text-seek_file_example =
    get_text-seek_file two_files (pos 3) two_files-Reads 6 true (pos 0) 0 (readable (pos 3)) []
      (codes "abc", []) (inl (refl, refl)) (λ e. cc e) (omega arith)

my_fopen-FreeAt_example :
    (o : Option ℕ) × (p1 : Process two_files) × (my_fopen two_files
        (codes "f")
        b'r'
        (record { files = initial_files; state = ([], []) })
      ≡ ok (o, p1))
    × ((i : ℕ)
        → o ≡ some i
        → FreeAt initial_files i
          × ((fd : ℤ) × (fd ≢ no_fd) × (p1.files ≡ set initial_files i (readable fd))))
my_fopen-FreeAt_example =
    my_fopen-FreeAt two_files (codes "f") b'r' (record { files = initial_files; state = ([], []) })
