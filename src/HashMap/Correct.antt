-- ===== src/HashMap/Correct.antt =====
-- The table is a finite map: its representation invariant, and each operation against the map.
use intern_status_update.Base.{
  ℕ, ◌≤◌, ◌<◌, ◌≡◌, ◌≢◌, refl, ◌∙◌, ap, List, [], Bytes, true, false, none, some, if◌then◌else◌,
  ◌==◌, length, get_or, set, length-set, get_or-set, length-replicate, get_or-replicate, str_eq,
  str_eq_iff, arith,
}
use intern_status_update.HashMap.{
  Table, hash, bucket, put, get, is_available, remove_key, init_table, put_chain, remove_chain,
  get_chain, table_size,
}
use intern_status_update.HashMap.Chain.{
  count, available-get, get_chain-put_chain, count-put_chain, get_chain-remove_chain,
  count-remove_chain, freed-put_chain, freed-remove_chain,
}

pub hash-lt : (key : Bytes) → hash key < table_size
unfolding hash
hash-lt key = omega arith

hash_congr : (a b : Bytes) → str_eq a b ≡ true → hash a ≡ hash b
hash_congr a b e = ap hash ((str_eq_iff a b).0 e)

-- 1024 buckets; a key stands at most once, and only in the bucket of its hash.
pub record IsTable {ℓ} {V : Type ℓ} (t : Table V) : Type 0 where
  pub width : length t ≡ table_size
  pub once : (q : Bytes) (i : ℕ) → count q (get_or t i []) ≤ 1
  pub home : (q : Bytes) (i : ℕ) → hash q ≢ i → count q (get_or t i []) ≡ 0

pub init_table-IsTable {ℓ} : {V : Type ℓ} → IsTable {V = V} init_table
unfolding init_table count
init_table-IsTable {V} = record {
  width = length-replicate table_size [];
  once = λ q i. rw get_or-replicate (omega arith);
  home = λ q i h. rw get_or-replicate refl;
}

pub get-init_table {ℓ} : {V : Type ℓ} (q : Bytes) → get {V = V} q init_table ≡ none
unfolding init_table get get_chain
get-init_table q = rw get_or-replicate refl

module _ {ℓ} {V : Type ℓ} (t : Table V) (w : IsTable t) (key : Bytes) where
  -- The two writing operations replace the chain of `key` by some other.
  replaced-IsTable :
      (c : List (Bytes × V))
      → ((q : Bytes) → count q c ≤ (if str_eq key q then 1 else count q (bucket key t)))
      → IsTable (set t (hash key) c)
  replaced-IsTable c few = record {
    width = length-set t (hash key) c ∙ w.width;
    once = λ q i.
        rw (get_or-set t (hash key) i c [] (omega (arith, w.width, hash-lt key)))
          (ground (arith, few q, w.once q (hash key), w.once q i));
    home = λ q i far.
        rw (get_or-set t (hash key) i c [] (omega (arith, w.width, hash-lt key)))
          (ground (arith, few q, w.home q (hash key), w.home q i far, hash_congr key q));
  }

  read_replaced :
      (q : Bytes) (c : List (Bytes × V))
      → get q (set t (hash key) c) ≡ (if hash key == hash q then get_chain q c else get q t)
  unfolding get
  read_replaced q c =
      rw (get_or-set t (hash key) (hash q) c [] (omega (arith, w.width, hash-lt key)))
        (ground arith)

  put-IsTable : (v : V) → IsTable (put key v t).0
  unfolding put
  put-IsTable v =
      replaced-IsTable _
        λ q. ground (arith, count-put_chain key q v (bucket key t), w.once q (hash key))

  remove_key-IsTable : IsTable (remove_key key t).0
  unfolding remove_key
  remove_key-IsTable =
      replaced-IsTable _
        λ q. ground (arith, count-remove_chain key q (bucket key t), w.once q (hash key))

  get-put : (v : V) (q : Bytes) → get q (put key v t).0 ≡ (if str_eq key q then some v else get q t)
  unfolding put get
  get-put v q =
      read_replaced q (put_chain key v (bucket key t)).0
      ∙ ground (arith, get_chain-put_chain key q v (bucket key t), hash_congr key q)

  get-remove_key :
      (q : Bytes) → get q (remove_key key t).0 ≡ (if str_eq key q then none else get q t)
  unfolding remove_key get
  get-remove_key q =
      read_replaced q (remove_chain key (bucket key t)).0
      ∙ ground (
        arith,
        get_chain-remove_chain key q (bucket key t),
        w.once q (hash key),
        hash_congr key q,
      )

  -- On a well-formed table `put` keeps the invariant, frees the value that the key had and no
  -- other, and is an update of the map: the key has the new value, every other key has what it had.
  pub put_refines :
      (v : V)
      → IsTable (put key v t).0
        × ((put key v t).1 ≡ get key t)
        × ((q : Bytes) → get q (put key v t).0 ≡ (if str_eq key q then some v else get q t))
  unfolding put get
  put_refines v = (put-IsTable v, freed-put_chain key v (bucket key t), get-put v)

  -- On a well-formed table `removeKey` keeps the invariant, frees the value that the key had, if
  -- any, and takes the key out of the map: every other key has what it had.
  pub remove_key_refines :
      IsTable (remove_key key t).0
      × ((remove_key key t).1 ≡ get key t)
      × ((q : Bytes) → get q (remove_key key t).0 ≡ (if str_eq key q then none else get q t))
  unfolding remove_key get
  remove_key_refines = (remove_key-IsTable, freed-remove_chain key (bucket key t), get-remove_key)

-- `isAvailable` answers whether `get` finds the key.
pub is_available-get {ℓ} :
    {V : Type ℓ} (t : Table V) (q : Bytes)
    → is_available q t ≡ elim (get q t) [ none ↦ false | some _ ↦ true ]
unfolding is_available get
is_available-get t q = available-get q (bucket q t)
