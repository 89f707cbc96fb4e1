-- ===== src/Libc/Compare.antt =====
-- `strcmp` on strings without their terminators, and the order that it makes.
use Prim.Native.Nat.{compare, Ordering}
use intern_status_update.Base.{
  ◌≡◌, refl, ap, [], ◌∷◌, Bytes, Bool, true, false, str_eq, str_eq_iff, arith, inl, inr, Bool-cases,
}

unfoldable pub strcmp : Bytes → Bytes → Ordering
strcmp [] [] = Ordering.eq
strcmp [] (y ∷ ys) = Ordering.lt
strcmp (x ∷ xs) [] = Ordering.gt
strcmp (x ∷ xs) (y ∷ ys) =
    let rest = strcmp xs ys in
    elim (compare x y) [
      | Ordering.lt ↦ Ordering.lt
      | Ordering.eq ↦ rest
      | Ordering.gt ↦ Ordering.gt
    ]

-- `strcmp(a, b) > 0`
abbrev pub is_after : Bytes → Bytes → Bool
is_after a b = elim (strcmp a b) [ Ordering.gt ↦ true | _ ↦ false ]

pub strcmp_refl : (a : Bytes) → strcmp a a ≡ Ordering.eq
unfolding strcmp
strcmp_refl [] = refl
strcmp_refl (x ∷ xs) = ground (arith, strcmp_refl xs)

pub strcmp-eq : (a b : Bytes) → strcmp a b ≡ Ordering.eq → a ≡ b
unfolding strcmp
strcmp-eq [] [] h = refl
strcmp-eq [] (y ∷ ys) h = ground arith
strcmp-eq (x ∷ xs) [] h = ground arith
strcmp-eq (x ∷ xs) (y ∷ ys) h = ground (arith, strcmp-eq xs ys)

pub strcmp-lt-gt : (a b : Bytes) → strcmp a b ≡ Ordering.lt → strcmp b a ≡ Ordering.gt
unfolding strcmp
strcmp-lt-gt [] [] h = ground arith
strcmp-lt-gt [] (y ∷ ys) h = refl
strcmp-lt-gt (x ∷ xs) [] h = ground arith
strcmp-lt-gt (x ∷ xs) (y ∷ ys) h = ground (arith, strcmp-lt-gt xs ys)

pub strcmp-gt-lt : (a b : Bytes) → strcmp a b ≡ Ordering.gt → strcmp b a ≡ Ordering.lt
unfolding strcmp
strcmp-gt-lt [] [] h = ground arith
strcmp-gt-lt [] (y ∷ ys) h = ground arith
strcmp-gt-lt (x ∷ xs) [] h = refl
strcmp-gt-lt (x ∷ xs) (y ∷ ys) h = ground (arith, strcmp-gt-lt xs ys)

pub is_after_trans :
    (a b c : Bytes) → is_after a b ≡ false → is_after b c ≡ false → is_after a c ≡ false
unfolding strcmp
is_after_trans [] b [] h k = refl
is_after_trans [] b (z ∷ zs) h k = refl
is_after_trans (x ∷ xs) [] c h k = ground arith
is_after_trans (x ∷ xs) (y ∷ ys) [] h k = ground arith
is_after_trans (x ∷ xs) (y ∷ ys) (z ∷ zs) h k =
    ground (arith, is_after_trans xs ys zs, strcmp-eq xs ys, strcmp-eq ys zs)

-- Of two strings one is not behind the other.
pub is_after-total : (a b : Bytes) → is_after a b ≡ true → is_after b a ≡ false
is_after-total a b h = ground (arith, strcmp-gt-lt a b)

-- Equal bytes, by the other test for strings.
pub strcmp-str_eq : (a b : Bytes) → strcmp a b ≡ Ordering.eq → str_eq a b ≡ true
strcmp-str_eq a b h = (str_eq_iff a b).1 (strcmp-eq a b h)

pub strcmp-str_ne_lt : (a b : Bytes) → strcmp a b ≡ Ordering.lt → str_eq a b ≡ false
strcmp-str_ne_lt a b h = elim (Bool-cases (str_eq a b)) [
  | inr e ↦ e
  | inl e ↦ ground (arith, strcmp_refl a, ap (strcmp a) ((str_eq_iff a b).0 e))
]

pub strcmp-str_ne_gt : (a b : Bytes) → strcmp a b ≡ Ordering.gt → str_eq a b ≡ false
strcmp-str_ne_gt a b h = elim (Bool-cases (str_eq a b)) [
  | inr e ↦ e
  | inl e ↦ ground (arith, strcmp_refl a, ap (strcmp a) ((str_eq_iff a b).0 e))
]
