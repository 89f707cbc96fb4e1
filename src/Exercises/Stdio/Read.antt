-- ===== src/Exercises/Stdio/Read.antt =====
-- 14-1-26/8-4.c: what is read through the buffer is what the kernel gives, in whatever pieces it does.
pub mod Text
use intern_status_update.Base.{
  ℕ, zero, suc, ◌+◌, ◌≤◌, ◌<◌, ◌≡◌, ◌≢◌, refl, sym, ap, subst, ◌∙◌, inl, inr, ◌⊎◌, [], ◌∷◌, ◌++◌,
  List, Bytes, Bool, true, false, Option, none, some, Run, ok, fault, ◌>>=◌, deref, if◌then◌else◌,
  map, length, length-append, append_assoc, append-nil, get_elem?, store_all, store_all-append,
  drop, length-drop, arith, Bool-cases,
}
use intern_status_update.Base.Int.{int_pred, ℤ, pos, negsuc, int_eq, int_eq_iff, no_fd}
use intern_status_update.Exercises.Stdio.{
  Kernel, File, Answer, got, failed, buf_size, end_of_file, non_negative, read_ptr, rewind, Result,
  with_buffer, fill, my_fillbuf, my_getc,
}
use intern_status_update.Exercises.Stdio.Files.{seek_file, flush_file, get_text}

-- A file opened for reading whose buffer holds `ahead` from `ptr` on.
abbrev pub holding : ℤ → Bytes → Bytes → Bytes → File
holding fd pre ahead tail = record {
  cnt = pos (length ahead);
  ptr = some (length pre);
  base = some (pre ++ (ahead ++ tail));
  read = true;
  write = false;
  unbuf = false;
  eof = false;
  err = false;
  fd = fd;
}

-- The same before the first read.
abbrev pub readable : ℤ → File
readable fd = record {
  cnt = pos 0;
  ptr = none;
  base = none;
  read = true;
  write = false;
  unbuf = false;
  eof = false;
  err = false;
  fd = fd;
}

-- The file is in order for reading, and these bytes stand ready in it.
abbrev pub Ahead : ℤ → File → Bytes → Type 0
Ahead fd f bytes =
    ((f ≡ readable fd) × (bytes ≡ []))
    ⊎ ((pre : Bytes) × (tail : Bytes) × (f ≡ holding fd pre bytes tail)
        × (length (pre ++ (bytes ++ tail)) ≡ 1024))

-- What `read` and `malloc` do, where they do not fail: a `read` takes at most as many bytes as were
-- asked for off those that are left, and none only if none are left.
pub record Reads (k : Kernel) (fd : ℤ) : Type 0 where
  pub left : k.State → Bytes
  pub read :
      (n : ℕ) (s : k.State)
      → (bytes : Bytes) × ((k.read fd n s).0 ≡ got bytes)
        × (left s ≡ bytes ++ left (k.read fd n s).1)
        × (length bytes ≤ n)
        × (1 ≤ n → bytes ≡ [] → left s ≡ [])
  pub malloc :
      (n : ℕ) (s : k.State)
      → (b : Bytes) × ((k.malloc n s).0 ≡ some b)
        × (length b ≡ n)
        × (left (k.malloc n s).1 ≡ left s)

get_elem?-behind :
    (pre : Bytes) (c : ℕ) (xs : Bytes) → get_elem? (pre ++ c ∷ xs) (length pre) ≡ some c
get_elem?-behind [] c xs = refl
get_elem?-behind (p ∷ pre) c xs = get_elem?-behind pre c xs

module _ (k : Kernel) (fd : ℤ) (w : Reads k fd) where
  -- A call that takes one byte off those ready and left, or finds none.
  abbrev pub Taken : Bytes → k.State → Result k → Type 0
  Taken bytes s run =
      ((c : ℕ) × (f1 : File) × (s1 : k.State) × (bytes1 : Bytes) × (run ≡ ok (pos c, f1, s1))
        × Ahead fd f1 bytes1
        × (bytes ++ w.left s ≡ c ∷ (bytes1 ++ w.left s1)))
      ⊎ ((f1 : File) × (s1 : k.State) × (run ≡ ok (end_of_file, f1, s1)) × (bytes ++ w.left s ≡ []))

  my_getc-ahead :
      (c : ℕ) (pre ahead tail : Bytes) (s : k.State)
      → my_getc k (holding fd pre (c ∷ ahead) tail) s
        ≡ ok (pos c, holding fd (pre ++ c ∷ []) ahead tail, s)
  unfolding my_getc read_ptr int_pred
  my_getc-ahead c pre ahead tail s =
      let next : length (pre ++ c ∷ []) ≡ length pre + 1 =
        omega (arith, length-append pre (c ∷ [])) in
      rw (get_elem?-behind pre c (ahead ++ tail), next, append_assoc) refl

  -- The buffer is filled again.
  fill-Taken :
      (m : ℤ) (ptr : Option ℕ) (all bytes : Bytes) (s s1 : k.State)
      → length all ≡ 1024
      → length bytes ≤ 1024
      → w.left s ≡ bytes ++ w.left s1
      → (bytes ≡ [] → w.left s ≡ [])
      → Taken [] s (
          fill k
            (got bytes)
            (rewind (record (readable fd) { cnt = m; base = some all; ptr = ptr }))
            s1)
  unfolding fill read_ptr
  fill-Taken m ptr all [] s s1 long few same end = inr (_, s1, refl, end refl)
  fill-Taken m ptr all (c ∷ bytes) s s1 long few same end =
      let rest = length-drop (suc (length bytes)) all in
      let whole = length-append bytes (drop (suc (length bytes)) all) in
      inl (
        c,
        holding fd (c ∷ []) bytes (drop (suc (length bytes)) all),
        s1,
        bytes,
        (rw (store_all-append (c ∷ bytes) [] all (omega arith)) refl),
        inr (c ∷ [], drop (suc (length bytes)) all, refl, omega arith),
        same,
      )

  my_fillbuf-Taken :
      (m : ℕ) (i : ℕ) (all : Bytes) (s : k.State)
      → length all ≡ 1024
      → Taken [] s
          (my_fillbuf k (record (readable fd) { cnt = negsuc m; base = some all; ptr = some i }) s)
  unfolding my_fillbuf with_buffer
  my_fillbuf-Taken m i all s long =
      let (bytes, e, same, few, end) = w.read 1024 s in
      rw e (
        fill-Taken (negsuc m) (some i) all bytes s (k.read fd 1024 s).1 long few same
          (end (omega arith)))

  my_fillbuf_first :
      (m : ℕ) (s : k.State) → Taken [] s (my_fillbuf k (record (readable fd) { cnt = negsuc m }) s)
  unfolding my_fillbuf with_buffer
  my_fillbuf_first m s =
      let (b, e, long, same0) = w.malloc 1024 s in
      let (bytes, e2, same, few, end) = w.read 1024 (k.malloc 1024 s).1 in
      rw (e, e2)
        (fill-Taken (pos 1024) (some 0) b bytes s (k.read fd 1024 (k.malloc 1024 s).1).1 long few
          (sym same0 ∙ same) (λ none_got. sym same0 ∙ end (omega arith) none_got))

  take_held :
      (pre bytes tail : Bytes) (s : k.State)
      → length (pre ++ (bytes ++ tail)) ≡ 1024
      → Taken bytes s (my_getc k (holding fd pre bytes tail) s)
  take_held pre [] tail s long =
      (unfold my_getc int_pred in my_fillbuf-Taken 0 (length pre) (pre ++ tail) s long)
  take_held pre (c ∷ bytes) tail s long = inl (
    c,
    holding fd (pre ++ c ∷ []) bytes tail,
    s,
    bytes,
    my_getc-ahead c pre bytes tail s,
    inr (pre ++ c ∷ [], tail, refl, ap length (append_assoc pre (c ∷ []) (bytes ++ tail)) ∙ long),
    refl,
  )

  pub my_getc-Taken :
      (f : File) (bytes : Bytes) (s : k.State) → Ahead fd f bytes → Taken bytes s (my_getc k f s)
  my_getc-Taken f bytes s (inl (e, nothing)) =
      rw (e, nothing) (unfold my_getc int_pred in my_fillbuf_first 0 s)
  my_getc-Taken f bytes s (inr (pre, tail, e, long)) = rw e (take_held pre bytes tail s long)
