-- ===== src/Config/Validate/Wrap.antt =====
-- The 32-bit count of the machines.
use kg.Base.{ℕ, [], ◌∷◌, ◌<◌, ◌≡◌, refl, arith, false}
use kg.Base.Int.{pos, negsuc, int32, add_int32, ltb_ℤ}
use kg.Config.{WorkerPool}
use kg.Config.Validate.{machine_problems, worker_replicas}

wrapped_sum : add_int32 (add_int32 (pos 0) (pos 2147483647)) (pos 2147483647) ≡ negsuc 1
unfolding add_int32
wrapped_sum = refl

wrapped_total : add_int32 (pos 1) (negsuc 1) ≡ negsuc 0
unfolding add_int32
wrapped_total = refl

small_int32 : (n : ℕ) → n < 2147483648 → int32 (pos n) ≡ pos n
unfolding int32
small_int32 n h = ground arith

not_above : (n : ℕ) → ltb_ℤ (pos n) (negsuc 0) ≡ false
not_above n = ground arith

-- The count of the machines wraps around: of one control plane machine and two pools of 2147483647
-- workers each, the check against the inventory reports nothing, however few hosts there are (their
-- number being below 2147483648).
pub machine_problems_wrap :
    (hosts : ℕ) (p q : WorkerPool)
    → p.replicas ≡ pos 2147483647
    → q.replicas ≡ pos 2147483647
    → hosts < 2147483648
    → machine_problems (pos 1) (worker_replicas (pos 0) (p ∷ q ∷ [])) (int32 (pos hosts)) ≡ []
unfolding machine_problems worker_replicas
machine_problems_wrap hosts p q e f small =
    rw (e, f, wrapped_sum, wrapped_total, small_int32 hosts small, not_above hosts) refl
