-- ===== src/Ssh/Metrics/Tests.antt =====
-- The figures of a host on concrete replies.
use go_webssh.Base.{ℕ, ◌≡◌, refl, ◌*◌, ◌/◌, [], ◌∷◌, ok, err, none, map}
use go_webssh.Text.{codes, is_space}
use go_webssh.Text.Decimal.{atoi}
use go_webssh.Ssh.Metrics.{
  Floats, RawMetrics, fields, minus, unsupported_response, invalid_response, read_values,
  from_values, parse_metrics_output, percent, snapshot, cpu_share, rate, metrics_data,
  stream_metrics,
}

-- Whole numbers in place of numbers with fractions.
abbrev whole : Floats ℕ
whole = record {
  parse = atoi;
  truncate = λ n. n;
  of_uint64 = λ n. n;
  seconds = λ n. n / 1000000000;
  times = λ a b. a * b;
  divide = λ a b. a / b;
  nought = 0;
}

abbrev figures : RawMetrics ℕ
figures = record {
  cpu_total = 1000;
  cpu_idle = 250;
  memory_total = 8192000;
  memory_avail = 2048000;
  disk_total = 10240;
  disk_used = 4096;
  network_rx = 12345;
  network_tx = 67890;
  load1 = 1;
  uptime = 86461;
  collected_at = 5000000000;
}

reads_figures :
    parse_metrics_output whole 5000000000
      (codes "1000 250\n8000 2000\n10 4\n12345 67890\n1\n86461\n")
    ≡ ok figures
unfolding parse_metrics_output fields is_space read_values atoi from_values
reads_figures = refl

too_short : parse_metrics_output whole 0 (codes "not linux") ≡ err unsupported_response
unfolding parse_metrics_output fields is_space
too_short = refl

not_numbers : parse_metrics_output whole 0 (codes "1 2 3 4 5 6 7 8 x 10") ≡ err invalid_response
unfolding parse_metrics_output fields is_space read_values atoi
not_numbers = refl

-- Two seconds later; the counter of bytes received has started again.
abbrev later : RawMetrics ℕ
later = record figures {
  cpu_total = 1400;
  cpu_idle = 550;
  network_rx = 100;
  network_tx = 68090;
  collected_at = 7000000000;
}

shares :
    map {B = ℕ × ℕ × ℕ × ℕ}
      (λ d. (d.cpu_percent, d.memory_percent, d.network_rx_per_sec, d.network_tx_per_sec))
      (stream_metrics whole none (ok figures ∷ err invalid_response ∷ ok later ∷ []))
    ≡ (0, 75, 0, 0) ∷ (25, 75, 9223372036854769685, 100) ∷ []
unfolding stream_metrics metrics_data snapshot cpu_share rate percent minus
shares = refl
