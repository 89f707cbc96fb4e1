-- ===== src/HashMap/Sweep.antt =====
-- Ownership: the values in the table, counted by any weight, against those that are freed. A weight
-- that is 1 at one value and 0 elsewhere counts how often that value is freed.
use intern_status_update.Base.{
  ℕ, zero, suc, ◌+◌, ◌<◌, ◌≡◌, refl, List, [], ◌∷◌, ◌++◌, Bytes, Option, none, some, length, get_or,
  set, replicate, arith,
}
use intern_status_update.HashMap.{
  Table, hash, bucket, put, remove_key, put_chain, remove_chain, free_chain, free_table, init_table,
}
use intern_status_update.HashMap.Correct.{IsTable, hash-lt}

module _ {ℓ} {V : Type ℓ} (f : V → ℕ) where
  abbrev pub tally : List V → ℕ
  tally [] = 0
  tally (v ∷ vs) = f v + tally vs

  abbrev pub tally_freed : Option V → ℕ
  tally_freed none = 0
  tally_freed (some v) = f v

  tally-append : (xs ys : List V) → tally (xs ++ ys) ≡ tally xs + tally ys
  tally-append [] ys = omega arith
  tally-append (x ∷ xs) ys = omega (arith, tally-append xs ys)

  -- The weight of all values in the table: `freeTable` frees them all.
  abbrev pub held : Table V → ℕ
  held t = tally (free_table t).1

  tally-put_chain :
      (key : Bytes) (v : V) (c : List (Bytes × V))
      → tally_freed (put_chain key v c).1 + tally (free_chain (put_chain key v c).0)
        ≡ f v + tally (free_chain c)
  unfolding put_chain free_chain
  tally-put_chain key v [] = omega arith
  tally-put_chain key v ((k, w) ∷ c) = ground (arith, tally-put_chain key v c)

  tally-remove_chain :
      (key : Bytes) (c : List (Bytes × V))
      → tally_freed (remove_chain key c).1 + tally (free_chain (remove_chain key c).0)
        ≡ tally (free_chain c)
  unfolding remove_chain free_chain
  tally-remove_chain key [] = omega arith
  tally-remove_chain key ((k, w) ∷ c) = ground (arith, tally-remove_chain key c)

  held-set :
      (t : Table V) (i : ℕ) (c : List (Bytes × V))
      → i < length t
      → held (set t i c) + tally (free_chain (get_or t i [])) ≡ held t + tally (free_chain c)
  unfolding free_table get_or
  held-set [] i c h = absurd (omega arith)
  held-set (x ∷ t) zero c h = omega (
    arith,
    tally-append (free_chain c) (free_table t).1,
    tally-append (free_chain x) (free_table t).1,
  )
  held-set (x ∷ t) (suc i) c h = omega (
    arith,
    tally-append (free_chain x) (free_table t).1,
    tally-append (free_chain x) (free_table (set t i c)).1,
    held-set t i c (omega arith),
  )

  -- On a well-formed table no value is lost or freed twice by `put` and `removeKey`: what the table
  -- holds afterwards and what is freed make up what it held before, and the value put.
  pub freed_or_held :
      (t : Table V)
      → IsTable t
      → (key : Bytes) (v : V)
      → (tally_freed (put key v t).1 + held (put key v t).0 ≡ f v + held t)
        × (tally_freed (remove_key key t).1 + held (remove_key key t).0 ≡ held t)
  unfolding put remove_key
  freed_or_held t w key v =
      let inside : hash key < length t = omega (arith, w.width, hash-lt key) in
      (
        omega (
          arith,
          held-set t (hash key) (put_chain key v (bucket key t)).0 inside,
          tally-put_chain key v (bucket key t),
        ),
        omega (
          arith,
          held-set t (hash key) (remove_chain key (bucket key t)).0 inside,
          tally-remove_chain key (bucket key t),
        ),
      )

cleared {ℓ} : {V : Type ℓ} (t : Table V) → (free_table t).0 ≡ replicate (length t) []
unfolding free_table replicate
cleared [] = refl
cleared (c ∷ t) = rw (cleared t)

-- After `freeTable` a table of 1024 buckets is as `initTable` leaves it.
pub free_table-init_table {ℓ} :
    {V : Type ℓ} (t : Table V) → IsTable t → (free_table t).0 ≡ init_table
unfolding init_table
free_table-init_table t w = rw (cleared t, w.width)
