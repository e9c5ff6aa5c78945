-- ===== src/Ssh/Metrics/Laws.antt =====
-- Where the differences of figures do not wrap, what becomes of a counter that goes back, and which rounds are told.
use go_webssh.Base.{
  ℕ, ◌+◌, ◌-◌, ◌^◌, ◌≤◌, ◌<◌, ◌≡◌, refl, arith, Option, some, none, List, [], ◌∷◌, ◌++◌, Result, ok,
  err, ap,
}
use go_webssh.Ssh.Metrics.{
  minus, Floats, RawMetrics, MetricsError, snapshot, metrics_data, percent, cpu_share, rate,
  stream_metrics,
}

-- A difference of two numbers of 64 bits, the second not above the first, does not wrap.
minus-exact : (a b : ℕ) → b ≤ a → a < 2 ^ 64 → minus a b ≡ a - b
unfolding minus
minus-exact a b h small = omega arith

-- A counter that goes back by fewer than 2^63 counts as more than 2^63.
minus-back : (a b : ℕ) → a < b → b < a + 2 ^ 63 → b < 2 ^ 64 → 2 ^ 63 < minus a b
unfolding minus
minus-back a b back near small = omega arith

module _ {Float : Type 0} (float : Floats Float) where
  -- The last figures that were collected.
  abbrev pub latest :
      Option (RawMetrics Float)
      → List (Result MetricsError (RawMetrics Float))
      → Option (RawMetrics Float)
  latest previous [] = previous
  latest previous (err e ∷ rounds) = latest previous rounds
  latest previous (ok c ∷ rounds) = latest (some c) rounds

  -- Memory that is in use and memory that is available are the whole, if no more is available than there is.
  pub memory_used-whole :
      (previous : Option (RawMetrics Float)) (c : RawMetrics Float)
      → c.memory_avail ≤ c.memory_total
      → c.memory_total < 2 ^ 64
      → (metrics_data float previous c).memory_used + c.memory_avail ≡ c.memory_total
  unfolding metrics_data snapshot minus
  memory_used-whole none c less small = ground arith
  memory_used-whole (some p) c less small = ground arith

  -- Between two rounds in which the counters of the processors grow, the idle time by no more than the whole, the
  -- share is that of the differences.
  pub cpu_share-exact :
      (p c : RawMetrics Float)
      → p.cpu_total < c.cpu_total
      → p.cpu_idle ≤ c.cpu_idle
      → c.cpu_idle - p.cpu_idle ≤ c.cpu_total - p.cpu_total
      → c.cpu_total < 2 ^ 64
      → c.cpu_idle < 2 ^ 64
      → cpu_share float p c
        ≡ percent float
            ((c.cpu_total - p.cpu_total) - (c.cpu_idle - p.cpu_idle))
            (c.cpu_total - p.cpu_total)
  unfolding cpu_share
  cpu_share-exact p c grows idle share small small_idle =
      let total = minus-exact c.cpu_total p.cpu_total (omega arith) small in
      let idles = minus-exact c.cpu_idle p.cpu_idle idle small_idle in
      let used =
        minus-exact (c.cpu_total - p.cpu_total) (c.cpu_idle - p.cpu_idle) share (omega arith) in
      rw (total, idles, used) (ground arith)

  -- A counter of the network that has gone back by fewer than 2^63 bytes since the round before is shown as the
  -- rate of more than 2^63 bytes.
  pub rate-back :
      (before now old new : ℕ)
      → before < now
      → new < old
      → old < new + 2 ^ 63
      → old < 2 ^ 64
      → (n : ℕ) × (2 ^ 63 < n)
        × (rate float before now old new
            ≡ float.divide (float.of_uint64 n) (float.seconds (now - before)))
  unfolding rate
  rate-back before now old new later back near small =
      (minus new old, minus-back new old back near small, ground arith)

  -- What later rounds send depends on the earlier ones through the last figures alone.
  pub stream_metrics-append :
      (previous : Option (RawMetrics Float))
      (rounds later : List (Result MetricsError (RawMetrics Float)))
      → stream_metrics float previous (rounds ++ later)
        ≡ stream_metrics float previous rounds
          ++ stream_metrics float (latest previous rounds) later
  unfolding stream_metrics
  stream_metrics-append previous [] later = refl
  stream_metrics-append previous (err e ∷ rounds) later =
      stream_metrics-append previous rounds later
  stream_metrics-append previous (ok c ∷ rounds) later =
      ap (λ sent. metrics_data float previous c ∷ sent)
        (stream_metrics-append (some c) rounds later)
