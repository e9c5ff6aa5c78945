-- ===== src/Ws/Limit.antt =====
-- `reserveSession` and `reserveTunnel` of internal/ws: a bounded counter under compare-and-swap, with
-- the atomic steps of all requests interleaved.
pub mod Laws
use go_webssh.Base.{
  ℕ, zero, suc, Bool, true, false, Option, none, some, List, [], ◌∷◌, if◌then◌else◌,
}
use go_webssh.Int.{ℤ, pos, leb_ℤ, eq_ℤ, suc_ℤ, pred_ℤ}

-- One request's way through the loop: before the load, with the value that it has loaded, turned
-- away, holding a place, and done.
pub data Phase : Type 0 where
  start : Phase
  loaded : ℤ → Phase
  refused holding released : Phase

-- One atomic step of a request on the counter: the load; the test of the limit with the swap, which
-- succeeds if the counter is still the value that was loaded; the deferred decrement.
unfoldable pub step : ℤ → Phase → ℤ → Phase × ℤ
step limit start active = (loaded active, active)
step limit (loaded current) active =
    if leb_ℤ limit current
    then (refused, active)
    else if eq_ℤ active current
    then (holding, suc_ℤ current)
    else (start, active)
step limit refused active = (refused, active)
step limit holding active = (released, pred_ℤ active)
step limit released active = (released, active)

-- The step of the request of that number; a number without a request does nothing.
unfoldable pub step_at : ℤ → ℕ → List Phase → ℤ → List Phase × ℤ
unfolding step
step_at limit n [] active = ([], active)
step_at limit zero (p ∷ ps) active = let (q, after) = step limit p active in (q ∷ ps, after)
step_at limit (suc n) (p ∷ ps) active =
    let (qs, after) = step_at limit n ps active in (p ∷ qs, after)

-- Steps of requests in the order of a schedule.
unfoldable pub run : ℤ → List ℕ → List Phase → ℤ → List Phase × ℤ
unfolding step_at
run limit [] ps active = (ps, active)
run limit (n ∷ schedule) ps active =
    let (qs, after) = step_at limit n ps active in run limit schedule qs after

-- The loop of one request where no other one interferes.
unfoldable pub reserve : ℤ → ℤ → Option ℤ
reserve limit active = if leb_ℤ limit active then none else some (suc_ℤ active)
