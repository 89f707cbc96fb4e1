-- ===== src/Exercises/WordCount/Sort/Order.antt =====
-- 7-1-26/6-4.c: the order in which the words are printed, apart from the code that compares two.
use intern_status_update.Base.{◌<◌, ◌≡◌, ◌⊎◌, [], ◌∷◌, List, Bytes, false, All, arith}
use intern_status_update.Libc.Compare.{strcmp, is_after}
use intern_status_update.Exercises.WordCount.{Entry}
use intern_status_update.Exercises.WordCount.Sort.{Stays, IsSettled}

-- The order of a dictionary on words.
abbrev pub InOrder : Bytes → Bytes → Type 0
InOrder [] w = Unit {0}
InOrder (x ∷ v) [] = ⊥
InOrder (x ∷ v) (y ∷ w) = (x < y) ⊎ ((x ≡ y) × InOrder v w)

-- x has the larger count, or the same count and a word that is not behind that of y.
abbrev pub Before : Entry → Entry → Type 0
Before x y = (y.count < x.count) ⊎ ((x.count ≡ y.count) × InOrder x.word y.word)

-- Every entry is before all that follow it.
abbrev pub IsSorted : List Entry → Type 0
IsSorted [] = Unit {0}
IsSorted (x ∷ entries) = All (Before x) entries × IsSorted entries

is_after-InOrder : (v w : Bytes) → is_after v w ≡ false → InOrder v w
unfolding strcmp
is_after-InOrder [] w h = tt
is_after-InOrder (x ∷ v) [] h = ground arith
is_after-InOrder (x ∷ v) (y ∷ w) h = ground (arith, is_after-InOrder v w)

Stays-Before : (x y : Entry) → Stays x y → Before x y
Stays-Before x y h = ground (arith, is_after-InOrder x.word y.word)

All-Before : (x : Entry) (entries : List Entry) → All (Stays x) entries → All (Before x) entries
All-Before x [] h = tt
All-Before x (y ∷ entries) (h, more) = (Stays-Before x y h, All-Before x entries more)

pub IsSettled-IsSorted : (entries : List Entry) → IsSettled entries → IsSorted entries
IsSettled-IsSorted [] h = tt
IsSettled-IsSorted (x ∷ entries) (h, more) =
    (All-Before x entries h, IsSettled-IsSorted entries more)
