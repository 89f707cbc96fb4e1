-- ===== src/HashMap/Tests.antt =====
-- Runs of the table, and the theorems at concrete tables.
use intern_status_update.Base.{
  ℕ, ◌+◌, ◌≡◌, refl, [], ◌∷◌, Bytes, none, some, if◌then◌else◌, codes, str_eq,
}
use intern_status_update.HashMap.{Table, hash, put, get, remove_key, init_table}
use intern_status_update.HashMap.Correct.{
  IsTable, init_table-IsTable, put_refines, remove_key_refines,
}
use intern_status_update.HashMap.Sweep.{tally_freed, held, freed_or_held}

hash-nirmal : hash (codes "nirmal") ≡ 680
unfolding hash
hash-nirmal = refl

-- Bytes from 128 on count as negative numbers.
hash_negative : hash (0xc3 ∷ 0xa9 ∷ []) ≡ 529
unfolding hash
hash_negative = refl

-- Two keys in one bucket.
hash_collision : hash (codes "ab") ≡ hash (codes "bA")
unfolding hash
hash_collision = refl

abbrev one_user : Table ℕ
one_user = (put (codes "ab") 7 init_table).0

one_user-IsTable : IsTable one_user
one_user-IsTable = (put_refines init_table init_table-IsTable (codes "ab") 7).0

put_refines_example :
    IsTable (put (codes "bA") 8 one_user).0
    × ((put (codes "bA") 8 one_user).1 ≡ get (codes "bA") one_user)
    × ((q : Bytes)
        → get q (put (codes "bA") 8 one_user).0
          ≡ (if str_eq (codes "bA") q then some 8 else get q one_user))
put_refines_example = put_refines one_user one_user-IsTable (codes "bA") 8

remove_key_refines_example :
    IsTable (remove_key (codes "ab") one_user).0
    × ((remove_key (codes "ab") one_user).1 ≡ get (codes "ab") one_user)
    × ((q : Bytes)
        → get q (remove_key (codes "ab") one_user).0
          ≡ (if str_eq (codes "ab") q then none else get q one_user))
remove_key_refines_example = remove_key_refines one_user one_user-IsTable (codes "ab")

freed_or_held_example :
    (tally_freed (λ v. v) (put (codes "ab") 9 one_user).1
        + held (λ v. v) (put (codes "ab") 9 one_user).0
      ≡ 9 + held (λ v. v) one_user)
    × (tally_freed (λ v. v) (remove_key (codes "ab") one_user).1
          + held (λ v. v) (remove_key (codes "ab") one_user).0
        ≡ held (λ v. v) one_user)
freed_or_held_example = freed_or_held (λ v. v) one_user one_user-IsTable (codes "ab") 9
