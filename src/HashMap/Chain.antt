-- ===== src/HashMap/Chain.antt =====
-- One chain of the table: a key occurs at most once, and the operations act on its value alone.
use intern_status_update.Base.{
  ℕ, ◌+◌, ◌≤◌, ◌≡◌, refl, List, [], ◌∷◌, Bytes, true, false, none, some, if◌then◌else◌, ltb, str_eq,
  str_eq_iff, arith,
}
use intern_status_update.HashMap.{put_chain, get_chain, available_chain, remove_chain}

module _ {ℓ} {V : Type ℓ} where
  unfoldable pub count : Bytes → List (Bytes × V) → ℕ
  count q [] = 0
  count q ((k, w) ∷ c) = (if str_eq k q then 1 else 0) + count q c

  pub get_chain-absent : (q : Bytes) (c : List (Bytes × V)) → count q c ≡ 0 → get_chain q c ≡ none
  unfolding count get_chain
  get_chain-absent q [] h = refl
  get_chain-absent q ((k, w) ∷ c) h = ground (arith, get_chain-absent q c)

  pub count-absent : (q : Bytes) (c : List (Bytes × V)) → get_chain q c ≡ none → count q c ≡ 0
  unfolding count get_chain
  count-absent q [] h = refl
  count-absent q ((k, w) ∷ c) h = ground (arith, count-absent q c)

  pub available-get :
      (q : Bytes) (c : List (Bytes × V))
      → available_chain q c ≡ elim (get_chain q c) [ none ↦ false | some _ ↦ true ]
  unfolding available_chain get_chain
  available-get q [] = refl
  available-get q ((k, w) ∷ c) = ground (arith, available-get q c)

  module _ (key q : Bytes) where
    pub get_chain-put_chain :
        (v : V) (c : List (Bytes × V))
        → get_chain q (put_chain key v c).0 ≡ (if str_eq key q then some v else get_chain q c)
    unfolding get_chain put_chain
    get_chain-put_chain v [] = refl
    get_chain-put_chain v ((k, w) ∷ c) =
        ground (arith, get_chain-put_chain v c, str_eq_iff k key, str_eq_iff k q, str_eq_iff key q)

    pub count-put_chain :
        (v : V) (c : List (Bytes × V))
        → count q (put_chain key v c).0
          ≤ (if str_eq key q then (if ltb (count q c) 1 then 1 else count q c) else count q c)
    unfolding count put_chain
    count-put_chain v [] = ground arith
    count-put_chain v ((k, w) ∷ c) =
        ground (arith, count-put_chain v c, str_eq_iff k key, str_eq_iff k q, str_eq_iff key q)

    pub get_chain-remove_chain :
        (c : List (Bytes × V))
        → count q c ≤ 1
        → get_chain q (remove_chain key c).0 ≡ (if str_eq key q then none else get_chain q c)
    unfolding get_chain remove_chain count
    get_chain-remove_chain [] h = ground arith
    get_chain-remove_chain ((k, w) ∷ c) h = ground (
      arith,
      get_chain-remove_chain c,
      get_chain-absent q c,
      str_eq_iff k key,
      str_eq_iff k q,
      str_eq_iff key q,
    )

    pub count-remove_chain : (c : List (Bytes × V)) → count q (remove_chain key c).0 ≤ count q c
    unfolding count remove_chain
    count-remove_chain [] = omega arith
    count-remove_chain ((k, w) ∷ c) = ground (arith, count-remove_chain c)

  -- What is freed is the value that the key had.
  pub freed-put_chain :
      (key : Bytes) (v : V) (c : List (Bytes × V)) → (put_chain key v c).1 ≡ get_chain key c
  unfolding put_chain get_chain
  freed-put_chain key v [] = refl
  freed-put_chain key v ((k, w) ∷ c) = ground (arith, freed-put_chain key v c)

  pub freed-remove_chain :
      (key : Bytes) (c : List (Bytes × V)) → (remove_chain key c).1 ≡ get_chain key c
  unfolding remove_chain get_chain
  freed-remove_chain key [] = refl
  freed-remove_chain key ((k, w) ∷ c) = ground (arith, freed-remove_chain key c)
