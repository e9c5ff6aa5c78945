-- ===== src/Ws/Limit/Laws.antt =====
-- The limit of internal/ws holds in every interleaving.
use go_webssh.Base.{ℕ, zero, suc, ◌+◌, ◌≤◌, ◌≡◌, refl, false, none, some, List, [], ◌∷◌, arith}
use go_webssh.Int.{ℤ, pos, leb_ℤ, eq_of_parts}
use go_webssh.Ws.Limit.{
  Phase, start, loaded, refused, holding, released, step, step_at, run, reserve,
}

-- The places that are held.
abbrev pub held : Phase → ℕ
held holding = 1
held _ = 0

abbrev pub all_held : List Phase → ℕ
all_held [] = 0
all_held (p ∷ ps) = held p + all_held ps

-- The counter is what is held, here and by others, and within the limit.
abbrev IsCounted : ℕ → ℕ → ℕ → ℤ → Type 0
IsCounted limit others here active = (active ≡ pos (here + others)) × (here + others ≤ limit)

-- A step moves the counter as it moves what the request holds, and stays within the limit.
step-IsCounted :
    (limit others : ℕ) (p : Phase) (active : ℤ)
    → IsCounted limit others (held p) active
    → let (q, after) = step (pos limit) p active in IsCounted limit others (held q) after
unfolding step
step-IsCounted limit others start active h = ground arith
step-IsCounted limit others (loaded current) active h = ground (arith, eq_of_parts active current)
step-IsCounted limit others refused active h = ground arith
step-IsCounted limit others holding active h = ground arith
step-IsCounted limit others released active h = ground arith

step_at-IsCounted :
    (limit others n : ℕ) (ps : List Phase) (active : ℤ)
    → IsCounted limit others (all_held ps) active
    → let (qs, after) = step_at (pos limit) n ps active in
      IsCounted limit others (all_held qs) after
unfolding step_at
step_at-IsCounted limit others n [] active h = h
step_at-IsCounted limit others zero (p ∷ ps) active h =
    ground (arith, step-IsCounted limit (all_held ps + others) p active)
step_at-IsCounted limit others (suc n) (p ∷ ps) active h =
    ground (arith, step_at-IsCounted limit (held p + others) n ps active)

run-IsCounted :
    (limit : ℕ) (schedule : List ℕ) (ps : List Phase) (active : ℤ)
    → IsCounted limit 0 (all_held ps) active
    → let (qs, after) = run (pos limit) schedule ps active in IsCounted limit 0 (all_held qs) after
unfolding run
run-IsCounted limit [] ps active h = h
run-IsCounted limit (n ∷ schedule) ps active h =
    run-IsCounted limit schedule _ _ (step_at-IsCounted limit 0 n ps active h)

-- Requests that have not started.
abbrev pub all_start : ℕ → List Phase
all_start zero = []
all_start (suc n) = start ∷ all_start n

all_held-all_start : (n : ℕ) → all_held (all_start n) ≡ 0
all_held-all_start zero = refl
all_held-all_start (suc n) = ground (arith, all_held-all_start n)

-- However the steps of any number of requests interleave, from a counter of zero, the counter is the
-- number of places that are held, and this is never over the limit.
pub run-counts_held :
    (limit requests : ℕ) (schedule : List ℕ)
    → let (ps, active) = run (pos limit) schedule (all_start requests) (pos 0) in
      (active ≡ pos (all_held ps)) × (all_held ps ≤ limit)
run-counts_held limit requests schedule =
    let (counted, bound) =
      run-IsCounted limit schedule (all_start requests) (pos 0)
        (ground (arith, all_held-all_start requests)) in
    (ground (arith, counted), ground (arith, bound))

-- A request that two steps in a row belong to gets its answer: a place exactly if the counter is
-- below the limit, as the loop without interference says.
pub step-reserve :
    (limit active : ℤ)
    → let (p, same) = step limit start active in
      step limit p same
      ≡ (elim (reserve limit active) [ none ↦ (refused, active) | some after ↦ (holding, after) ])
unfolding step reserve
step-reserve limit active = ground arith

-- Where a swap fails, the counter has moved since the load, and the request is not turned away.
pub step-loaded-retries :
    (limit current active : ℤ)
    → (step limit (loaded current) active).0 ≡ start
    → (active ≡ current → ⊥) × (leb_ℤ limit current ≡ false)
unfolding step
step-loaded-retries limit current active h = ground arith
