-- ===== src/Base/IdSet.antt =====
-- std::set<size_t> as its ascending list. An unordered set of ids, whose order nothing reads, is
-- one too.
use Prim.Native.Nat.{ℕ, ◌+◌, ◌<◌}
use mathlib.Core.Path.{◌≡◌, refl}
use mathlib.Core.Bool.{Bool, true, false, ◌||◌}
use mathlib.Core.List.{List, [], ◌∷◌}
use native.Mathlib.Omega.{arith}
use ndmspc.Base.Tests.{ltb, ◌==◌, if◌then◌else◌}
use ndmspc.Base.Lists.{length, All}

abbrev pub IdSet : Type 0
IdSet = List ℕ

unfoldable pub contains : ℕ → IdSet → Bool
contains a [] = false
contains a (x ∷ xs) = a == x || contains a xs

unfoldable pub insert : ℕ → IdSet → IdSet
insert a [] = a ∷ []
insert a (x ∷ xs) = if a == x then x ∷ xs else if ltb a x then a ∷ x ∷ xs else x ∷ insert a xs

unfoldable pub erase : ℕ → IdSet → IdSet
erase a [] = []
erase a (x ∷ xs) = if a == x then xs else x ∷ erase a xs

-- Ascending, with no id twice.
abbrev pub IsSorted : IdSet → Type 0
IsSorted [] = Unit
IsSorted (x ∷ xs) = All (λ y. x < y) xs × IsSorted xs

pub contains-insert :
    (j a : ℕ) (s : IdSet) → contains j (insert a s) ≡ (if j == a then true else contains j s)
unfolding contains insert
contains-insert j a [] = ground arith
contains-insert j a (x ∷ xs) = ground (arith, contains-insert j a xs)

pub not-contains_above : (a : ℕ) (s : IdSet) → All (λ y. a < y) s → contains a s ≡ false
unfolding contains
not-contains_above a [] h = refl
not-contains_above a (x ∷ xs) h = ground (arith, not-contains_above a xs h.1)

pub contains-erase :
    (j a : ℕ) (s : IdSet)
    → IsSorted s
    → contains j (erase a s) ≡ (if j == a then false else contains j s)
unfolding contains erase
contains-erase j a [] h = ground arith
contains-erase j a (x ∷ xs) h =
    ground (arith, contains-erase j a xs h.1, not-contains_above x xs h.0)

All-lt-insert : (b a : ℕ) (s : IdSet) → b < a → All (λ y. b < y) s → All (λ y. b < y) (insert a s)
unfolding insert
All-lt-insert b a [] h k = (h, tt)
All-lt-insert b a (x ∷ xs) h k = ground (arith, All-lt-insert b a xs h k.1)

All-lt_trans : (a b : ℕ) (s : IdSet) → a < b → All (λ y. b < y) s → All (λ y. a < y) s
All-lt_trans a b [] h k = tt
All-lt_trans a b (x ∷ xs) h k = (omega arith, All-lt_trans a b xs h k.1)

pub insert-IsSorted : (a : ℕ) (s : IdSet) → IsSorted s → IsSorted (insert a s)
unfolding insert
insert-IsSorted a [] h = (tt, tt)
insert-IsSorted a (x ∷ xs) h =
    ground (arith, insert-IsSorted a xs h.1, All-lt-insert x a xs, All-lt_trans a x xs)

All-lt-erase : (b a : ℕ) (s : IdSet) → All (λ y. b < y) s → All (λ y. b < y) (erase a s)
unfolding erase
All-lt-erase b a [] k = tt
All-lt-erase b a (x ∷ xs) k = ground (arith, All-lt-erase b a xs k.1)

pub erase-IsSorted : (a : ℕ) (s : IdSet) → IsSorted s → IsSorted (erase a s)
unfolding erase
erase-IsSorted a [] h = tt
erase-IsSorted a (x ∷ xs) h = ground (arith, erase-IsSorted a xs h.1, All-lt-erase x a xs)

pub length-insert : (a : ℕ) (s : IdSet) → contains a s ≡ false → length (insert a s) ≡ length s + 1
unfolding contains insert
length-insert a [] h = omega arith
length-insert a (x ∷ xs) h = ground (arith, length-insert a xs)

pub length-erase : (a : ℕ) (s : IdSet) → contains a s ≡ true → length (erase a s) + 1 ≡ length s
unfolding contains erase
length-erase a [] h = ground arith
length-erase a (x ∷ xs) h = ground (arith, length-erase a xs)
