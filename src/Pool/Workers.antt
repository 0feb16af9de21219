-- ===== src/Pool/Workers.antt =====
-- core/NDimensionalExecutor.cxx: sums over the workers of the pool.
use ndmspc.Base.{ℕ, zero, suc, ◌+◌, ◌≤◌, ◌≡◌, refl, List, [], ◌∷◌, some, arith, get_elem?, set}
use ndmspc.Pool.Defs.{Worker, all_idle}

pub total : (Worker → ℕ) → List Worker → ℕ
total weight [] = 0
total weight (w ∷ ws) = weight w + total weight ws

-- One worker changes.
pub total-set :
    (weight : Worker → ℕ) (ws : List Worker) (i : ℕ) (w v : Worker)
    → get_elem? ws i ≡ some w
    → total weight (set ws i v) + weight w ≡ total weight ws + weight v
unfolding total
total-set weight [] i w v h = absurd (ground (arith, h))
total-set weight (x ∷ ws) zero w v h = ground (arith, h)
total-set weight (x ∷ ws) (suc i) w v h = omega (arith, total-set weight ws i w v h)

pub total-all_idle :
    (weight : Worker → ℕ) (n : ℕ) → weight Worker.idle ≡ 0 → total weight (all_idle n) ≡ 0
unfolding total
total-all_idle weight zero h = refl
total-all_idle weight (suc n) h = omega (arith, h, total-all_idle weight n h)

pub total-le :
    (weight heavier : Worker → ℕ) (ws : List Worker)
    → ((w : Worker) → weight w ≤ heavier w)
    → total weight ws ≤ total heavier ws
unfolding total
total-le weight heavier [] h = omega arith
total-le weight heavier (w ∷ ws) h = omega (arith, h w, total-le weight heavier ws h)
