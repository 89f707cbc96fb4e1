-- ===== src/Exercises/Stdio/Open.antt =====
-- 14-1-26/8-4.c: `my_fopen` takes a free file of the table.
use intern_status_update.Base.{
  ℕ, suc, ◌≡◌, ◌≢◌, refl, sym, ap, ◌∙◌, inl, inr, [], ◌∷◌, List, Bytes, Bool, true, false, not,
  ◌&&◌, ◌||◌, Option, none, some, ok, if◌then◌else◌, ◌==◌, get_elem?, set, Bool-cases, Option-cases,
  some-injective,
}
use intern_status_update.Base.Int.{ℤ, int_eq, int_eq_iff, no_fd}
use intern_status_update.Exercises.Stdio.{Kernel, File}
use intern_status_update.Exercises.Stdio.Files.{
  opened, cleared, free_slot, Process, open_fd, my_fopen,
}
use intern_status_update.Exercises.Stdio.Read.{readable}
use intern_status_update.Exercises.Stdio.Write.{writable}

-- The file at a place of the table is neither read nor written.
abbrev pub FreeAt : List File → ℕ → Type 0
FreeAt files i = (f : File) × (get_elem? files i ≡ some f) × (f.read ≡ false) × (f.write ≡ false)

not_both : (a b : Bool) → (not a && not b) ≡ true → (a ≡ false) × (b ≡ false)
not_both true b h = cc
not_both false true h = cc
not_both false false h = (refl, refl)

free_slot-FreeAt : (files : List File) (i : ℕ) → free_slot files ≡ some i → FreeAt files i
unfolding free_slot
free_slot-FreeAt [] i h = cc
free_slot-FreeAt (f ∷ files) i h = elim (Bool-cases (not f.read && not f.write)) [
  | inl e ↦
      let first : 0 ≡ i = some-injective (rw e at h) in
      let (a, b) = not_both f.read f.write e in rw (← first) (f, refl, a, b)
  | inr e ↦ elim (Option-cases (free_slot files)) [
    | inl none_free ↦ cc (rw (e, none_free) at h)
    | inr (j, found) ↦
        let next : suc j ≡ i = some-injective (rw (e, found) at h) in
        rw (← next) (free_slot-FreeAt files j found)
  ]
]

opened_for :
    (fd : ℤ) (reading : Bool) (f : File)
    → opened fd reading f ≡ (if reading then readable fd else writable fd)
unfolding opened
opened_for fd true f = refl
opened_for fd false f = refl

module _ (k : Kernel) where
  -- my_fopen returns, whatever the mode, the table and the kernel. If it returns a file, that was
  -- free, and stands in the table afterwards as a new one to read for the mode r and to write for
  -- the modes w and a, with a descriptor that is not -1; no other file is touched.
  pub my_fopen-FreeAt :
      (name : Bytes) (mode : ℕ) (p : Process k)
      → (o : Option ℕ) × (p1 : Process k) × (my_fopen k name mode p ≡ ok (o, p1))
        × ((i : ℕ)
            → o ≡ some i
            → FreeAt p.files i
              × ((fd : ℤ) × (fd ≢ no_fd)
                  × (p1.files ≡ set p.files i (if mode == b'r' then readable fd else writable fd))))
  unfolding my_fopen
  my_fopen-FreeAt name mode p = elim (Bool-cases (mode == b'r' || (mode == b'w' || mode == b'a'))) [
    | inr e ↦ (none, p, (rw e refl), λ i h. cc)
    | inl e ↦ elim (Option-cases (free_slot p.files)) [
      | inl e2 ↦ (none, p, (rw (e, e2) refl), λ i h. cc)
      | inr (i, e2) ↦
          let (f, at, idle, silent) = free_slot-FreeAt p.files i e2 in
          elim (Bool-cases (int_eq (open_fd k mode name p.state).0 no_fd)) [
            | inl bad ↦ (
              none,
              record { files = set p.files i (cleared f); state = (open_fd k mode name p.state).1 },
              (rw (e, e2, at, bad) refl),
              λ j h. cc,
            )
            | inr good ↦
                let fd = (open_fd k mode name p.state).0 in
                let valid : fd ≢ no_fd = λ same. cc (sym good ∙ (int_eq_iff fd no_fd).1 same) in
                (
                  some i,
                  record {
                    files = set p.files i (opened fd (mode == b'r') f);
                    state = (open_fd k mode name p.state).1;
                  },
                  (rw (e, e2, at, good) refl),
                  λ j h.
                      let here : i ≡ j = some-injective h in
                      rw (← here) (
                        (f, at, idle, silent),
                        (fd, valid, ap (set p.files i) (opened_for fd (mode == b'r') f)),
                      ),
                )
          ]
    ]
  ]
