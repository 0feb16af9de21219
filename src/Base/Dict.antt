-- ===== src/Base/Dict.antt =====
-- std::unordered_map as an association list; its order is never read.
use Prim.Native.Nat.{◌+◌}
use mathlib.Core.Path.{◌≡◌, refl}
use mathlib.Core.Logic.{ite}
use mathlib.Core.List.{List, [], ◌∷◌}
use mathlib.Core.Option.{Option, none, some}
use native.Mathlib.Omega.{arith}
use ndmspc.Base.Lists.{length}

abbrev pub Dict {ℓ} : Type ℓ → Type ℓ → Type ℓ
Dict K V = List (K × V)

module _ {ℓ} {K V : Type ℓ} (dec : Discrete K) where
  unfoldable pub find : K → Dict K V → Option V
  find k [] = none
  find k ((j, v) ∷ m) = ite (dec k j) (some v) (find k m)

  -- `m[k] = v`
  unfoldable pub put : K → V → Dict K V → Dict K V
  put k v [] = (k, v) ∷ []
  put k v ((j, w) ∷ m) = ite (dec k j) ((k, v) ∷ m) ((j, w) ∷ put k v m)

  unfoldable pub erase : K → Dict K V → Dict K V
  erase k [] = []
  erase k ((j, w) ∷ m) = ite (dec k j) m ((j, w) ∷ erase k m)

  -- No key twice.
  abbrev pub IsDistinct : Dict K V → Type ℓ
  IsDistinct [] = Unit
  IsDistinct ((k, v) ∷ m) = (find k m ≡ none) × IsDistinct m

  pub find-put :
      (j k : K) (v : V) (m : Dict K V) → find j (put k v m) ≡ ite (dec j k) (some v) (find j m)
  unfolding find put
  find-put j k v [] = refl
  find-put j k v ((i, w) ∷ m) = ground (arith, find-put j k v m)

  pub find-erase :
      (j k : K) (m : Dict K V) → IsDistinct m → find j (erase k m) ≡ ite (dec j k) none (find j m)
  unfolding find erase
  find-erase j k [] h = ground arith
  find-erase j k ((i, w) ∷ m) h = ground (arith, find-erase j k m h.1)

  pub put-IsDistinct : (k : K) (v : V) (m : Dict K V) → IsDistinct m → IsDistinct (put k v m)
  unfolding find put
  put-IsDistinct k v [] h = (refl, tt)
  put-IsDistinct k v ((i, w) ∷ m) h = ground (arith, put-IsDistinct k v m h.1, find-put i k v m)

  pub erase-IsDistinct : (k : K) (m : Dict K V) → IsDistinct m → IsDistinct (erase k m)
  unfolding find erase
  erase-IsDistinct k [] h = tt
  erase-IsDistinct k ((i, w) ∷ m) h = ground (arith, erase-IsDistinct k m h.1, find-erase i k m h.1)

  pub length-put :
      (k : K) (v : V) (m : Dict K V) → find k m ≡ none → length (put k v m) ≡ length m + 1
  unfolding find put
  length-put k v [] h = omega arith
  length-put k v ((i, w) ∷ m) h = ground (arith, length-put k v m)

  pub length-erase :
      (k : K) {v : V} (m : Dict K V) → find k m ≡ some v → length (erase k m) + 1 ≡ length m
  unfolding find erase
  length-erase k [] h = ground arith
  length-erase k {v} ((i, w) ∷ m) h = ground (arith, length-erase k {v = v} m)
