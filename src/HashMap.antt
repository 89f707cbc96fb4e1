-- ===== src/HashMap.antt =====
-- Chat System/Server/hashmap.c: the chained table of 1024 buckets, with string keys (and its copy
-- in TicTacToe/Server/hashmap.c). The table owns its values, clients in the chat server: what an
-- operation frees is returned beside the new table.
pub mod Chain
pub mod Correct
pub mod Sweep
mod Tests
use intern_status_update.Base.{
  ℕ, zero, suc, ◌+◌, ◌-◌, ◌%◌, ◌^◌, List, [], ◌∷◌, ◌++◌, Bytes, Bool, true, false, Option, none,
  some, if◌then◌else◌, ltb, u64, ◌<<<◌, str_eq, get_or, set, replicate,
}

abbrev pub table_size : ℕ
table_size = 1024

-- A byte as the `char` that is added to a `size_t`: from 128 on it is negative.
unfoldable pub widen : ℕ → ℕ
widen c = if ltb c 128 then c else c + 2 ^ 64 - 256

unfoldable pub hash_loop : ℕ → Bytes → ℕ
unfolding widen
hash_loop acc [] = acc
hash_loop acc (c ∷ s) = hash_loop (u64 (u64 (acc <<< 5) + acc + widen c)) s

unfoldable pub hash : Bytes → ℕ
unfolding hash_loop
hash key = hash_loop 5381 key % table_size

module _ {ℓ} {V : Type ℓ} where
  -- `createNode`
  abbrev pub create_node : Bytes → V → Bytes × V
  create_node key v = (key, v)

  -- The part of `put` behind the computation of the index; the option is the value freed.
  unfoldable pub put_chain : Bytes → V → List (Bytes × V) → List (Bytes × V) × Option V
  put_chain key v [] = (create_node key v ∷ [], none)
  put_chain key v ((k, w) ∷ c) =
      let (rest, freed) = put_chain key v c in
      if str_eq k key then ((k, v) ∷ c, some w) else ((k, w) ∷ rest, freed)

  unfoldable pub get_chain : Bytes → List (Bytes × V) → Option V
  get_chain key [] = none
  get_chain key ((k, w) ∷ c) = if str_eq k key then some w else get_chain key c

  unfoldable pub available_chain : Bytes → List (Bytes × V) → Bool
  available_chain key [] = false
  available_chain key ((k, w) ∷ c) = if str_eq k key then true else available_chain key c

  unfoldable pub remove_chain : Bytes → List (Bytes × V) → List (Bytes × V) × Option V
  remove_chain key [] = ([], none)
  remove_chain key ((k, w) ∷ c) =
      let (rest, freed) = remove_chain key c in
      if str_eq k key then (c, some w) else ((k, w) ∷ rest, freed)

abbrev pub Table {ℓ} : Type ℓ → Type ℓ
Table V = List (List (Bytes × V))

module _ {ℓ} {V : Type ℓ} where
  -- `Table[hash(key)]`
  abbrev pub bucket : Bytes → Table V → List (Bytes × V)
  bucket key t = get_or t (hash key) []

  unfoldable pub put : Bytes → V → Table V → Table V × Option V
  put key v t =
      let (chain, freed) = put_chain key v (bucket key t) in (set t (hash key) chain, freed)

  unfoldable pub get : Bytes → Table V → Option V
  get key t = get_chain key (bucket key t)

  unfoldable pub is_available : Bytes → Table V → Bool
  is_available key t = available_chain key (bucket key t)

  unfoldable pub remove_key : Bytes → Table V → Table V × Option V
  remove_key key t =
      let (chain, freed) = remove_chain key (bucket key t) in (set t (hash key) chain, freed)

  -- The inner loop of `freeTable`: the values of one chain.
  unfoldable pub free_chain : List (Bytes × V) → List V
  free_chain [] = []
  free_chain ((k, w) ∷ c) = w ∷ free_chain c

  -- `freeTable`, with the values freed, in order.
  unfoldable pub free_table : Table V → Table V × List V
  free_table [] = ([], [])
  free_table (c ∷ t) = let (t', freed) = free_table t in ([] ∷ t', free_chain c ++ freed)

  -- `initTable`
  unfoldable pub init_table : Table V
  init_table = replicate table_size []
