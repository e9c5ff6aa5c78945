-- ===== src/Ssh/Metrics.antt =====
-- The figures of a remote host: `parseMetricsOutput` of internal/sshclient/metrics.go and one round of
-- `streamMetrics` of internal/ws/handler.go.
mod Laws
mod Tests
use go_webssh.Base.{
  ℕ, suc, zero, ◌+◌, ◌-◌, ◌*◌, ◌%◌, ◌^◌, Bool, true, false, ◌&&◌, Option, none, some, List, [], ◌∷◌,
  Result, ok, err, ◌>>=◌, ◌>>◌, fail_if, or_fail, if◌then◌else◌, length, ltb, leb,
}
use go_webssh.Text.{Text, is_space}

-- The numbers of type float64: what `ParseFloat` reads, the conversions from and to uint64, the seconds of a time,
-- and two operations.
pub record Floats (Float : Type 0) : Type 0 where
  pub parse : Text → Option Float
  pub truncate : Float → ℕ
  pub of_uint64 : ℕ → Float
  pub seconds : ℕ → Float
  pub times : Float → Float → Float
  pub divide : Float → Float → Float
  pub nought : Float

abbrev ends_word : Text → Bool
ends_word [] = true
ends_word (c ∷ s) = is_space c

abbrev prepend : ℕ → List Text → List Text
prepend c [] = (c ∷ []) ∷ []
prepend c (w ∷ ws) = (c ∷ w) ∷ ws

-- `strings.Fields`
unfoldable pub fields : Text → List Text
unfolding is_space
fields [] = []
fields (c ∷ s) =
    let rest = fields s in
    if is_space c then rest else if ends_word s then (c ∷ []) ∷ rest else prepend c rest

-- Sums of uint64 wrap.
abbrev pub wrapped : ℕ → ℕ
wrapped n = n % 2 ^ 64

-- `a - b` of uint64
unfoldable pub minus : ℕ → ℕ → ℕ
minus a b = wrapped (a + 2 ^ 64 - b)

pub data MetricsError : Type 0 where
  unsupported_response invalid_response : MetricsError

module _ (Float : Type 0) where
  -- `RawMetrics`
  pub record RawMetrics : Type 0 where
    pub cpu_total : ℕ
    pub cpu_idle : ℕ
    pub memory_total : ℕ
    pub memory_avail : ℕ
    pub disk_total : ℕ
    pub disk_used : ℕ
    pub network_rx : ℕ
    pub network_tx : ℕ
    pub load1 : Float
    pub uptime : Float
    pub collected_at : ℕ

  -- `MetricsData`
  pub record MetricsData : Type 0 where
    pub cpu_percent : Float
    pub memory_used : ℕ
    pub memory_total : ℕ
    pub memory_percent : Float
    pub disk_used : ℕ
    pub disk_total : ℕ
    pub disk_percent : Float
    pub network_rx_bytes : ℕ
    pub network_tx_bytes : ℕ
    pub network_rx_per_sec : Float
    pub network_tx_per_sec : Float
    pub load1 : Float
    pub uptime_seconds : Float

module _ {Float : Type 0} (float : Floats Float) where
  -- The loop over the values: the first `n` words as numbers.
  unfoldable pub read_values : ℕ → List Text → Result MetricsError (List Float)
  read_values zero words = ok []
  read_values (suc n) [] = err unsupported_response
  read_values (suc n) (w ∷ words) = do
    value ← or_fail (float.parse w) invalid_response
    rest ← read_values n words
    ok (value ∷ rest)

  -- A number of units of 1024 bytes.
  abbrev pub kibibytes : Float → ℕ
  kibibytes value = wrapped (float.truncate value * 1024)

  -- The figures in their order.
  unfoldable pub from_values : ℕ → List Float → Result MetricsError (RawMetrics Float)
  from_values now (c ∷ i ∷ m ∷ a ∷ d ∷ u ∷ r ∷ t ∷ l ∷ up ∷ []) = ok (record {
    cpu_total = float.truncate c;
    cpu_idle = float.truncate i;
    memory_total = kibibytes m;
    memory_avail = kibibytes a;
    disk_total = kibibytes d;
    disk_used = kibibytes u;
    network_rx = float.truncate r;
    network_tx = float.truncate t;
    load1 = l;
    uptime = up;
    collected_at = now;
  })
  from_values now _ = err unsupported_response

  -- `parseMetricsOutput`, at a time
  unfoldable pub parse_metrics_output : ℕ → Text → Result MetricsError (RawMetrics Float)
  unfolding fields read_values from_values
  parse_metrics_output now output = do
    let words = fields output
    fail_if (ltb (length words) 10) unsupported_response
    values ← read_values 10 words
    from_values now values

  -- `float64(a) * 100 / float64(b)`
  unfoldable pub percent : ℕ → ℕ → Float
  percent a b =
      float.divide (float.times (float.of_uint64 a) (float.of_uint64 100)) (float.of_uint64 b)

  -- What the figures alone give.
  unfoldable pub snapshot : RawMetrics Float → MetricsData Float
  unfolding percent minus
  snapshot c =
      let used = if ltb 0 c.memory_total then minus c.memory_total c.memory_avail else 0 in
      record {
        cpu_percent = float.nought;
        memory_used = used;
        memory_total = c.memory_total;
        memory_percent = if ltb 0 c.memory_total then percent used c.memory_total else float.nought;
        disk_used = c.disk_used;
        disk_total = c.disk_total;
        disk_percent =
            if ltb 0 c.disk_total then percent c.disk_used c.disk_total else float.nought;
        network_rx_bytes = c.network_rx;
        network_tx_bytes = c.network_tx;
        network_rx_per_sec = float.nought;
        network_tx_per_sec = float.nought;
        load1 = c.load1;
        uptime_seconds = c.uptime;
      }

  -- The share of the processors' time, if it is known.
  unfoldable pub cpu_share : RawMetrics Float → RawMetrics Float → Float
  unfolding percent minus
  cpu_share p c =
      let total = minus c.cpu_total p.cpu_total in
      let idle = minus c.cpu_idle p.cpu_idle in
      if ltb 0 total && leb idle total then percent (minus total idle) total else float.nought

  -- Bytes in a second, if time has passed.
  unfoldable pub rate : ℕ → ℕ → ℕ → ℕ → Float
  unfolding minus
  rate before now old new =
      if ltb before now
      then float.divide (float.of_uint64 (minus new old)) (float.seconds (now - before))
      else float.nought

  -- One round of `streamMetrics`: the message for the client, from the figures of the round before, if there are any.
  unfoldable pub metrics_data : Option (RawMetrics Float) → RawMetrics Float → MetricsData Float
  unfolding snapshot cpu_share rate
  metrics_data none c = snapshot c
  metrics_data (some p) c = record (snapshot c) {
    cpu_percent = cpu_share p c;
    network_rx_per_sec = rate p.collected_at c.collected_at p.network_rx c.network_rx;
    network_tx_per_sec = rate p.collected_at c.collected_at p.network_tx c.network_tx;
  }

  -- The loop of `streamMetrics`: the messages, from what the rounds collect. A round that fails is skipped.
  unfoldable pub stream_metrics :
      Option (RawMetrics Float)
      → List (Result MetricsError (RawMetrics Float))
      → List (MetricsData Float)
  unfolding metrics_data
  stream_metrics previous [] = []
  stream_metrics previous (err e ∷ rounds) = stream_metrics previous rounds
  stream_metrics previous (ok c ∷ rounds) = metrics_data previous c ∷ stream_metrics (some c) rounds
