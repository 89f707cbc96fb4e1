-- ===== src/Libc/Search.antt =====
-- What `strstr` and a scan for a quote return lies inside the memory that they search.
use intern_status_update.Base.{
  ◌≤◌, ◌≡◌, [], ◌∷◌, Bytes, true, false, some, ok, Run-cases, inl, inr, length, arith,
}
use intern_status_update.Libc.{strstr, starts_at, cstr}

pub length-strstr : (mem needle p : Bytes) → strstr mem needle ≡ ok (some p) → length p ≤ length mem
unfolding strstr
length-strstr [] needle p h = cc
length-strstr (x ∷ xs) needle p h = elim (Run-cases (starts_at needle (x ∷ xs))) [
  | inl e ↦ cc (rw e at h)
  | inr (true, e) ↦ let found : ok (some (x ∷ xs)) ≡ ok (some p) = rw e at h in ground arith
  | inr (false, e) ↦ ground (arith, length-strstr xs needle p, e)
]

pub length-cstr : (s : Bytes) → length (cstr s) ≤ length s
unfolding cstr
length-cstr [] = omega arith
length-cstr (x ∷ s) = ground (arith, length-cstr s)
