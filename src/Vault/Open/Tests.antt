-- ===== src/Vault/Open/Tests.antt =====
-- A database that is opened for the first time and then again, and the theorems there.
use go_webssh.Base.{ℕ, ◌≡◌, refl, sym, true, none, [], ◌∷◌, ◌++◌, ok, arith, All, zero, suc, ◌<◌}
use go_webssh.Text.{codes, trim_space}
use go_webssh.Text.Hex.{hex_encode}
use go_webssh.Dict.{Dict, insert, lookup}
use go_webssh.Vault.Open.{
  Entry, file, Platform, Meta, Opened, open_vault, options_for, initialize, load_master_key,
  create_key_file, finish, check_fingerprint, close_vault, zeroed,
}
use go_webssh.Vault.Open.Keys.{IsRandom}
use go_webssh.Vault.Open.Laws.{open_again, open_fingerprint}
use go_webssh.Vault.Sample.{zeros, sample_random, sample_lengths}

abbrev platform : Platform
platform = record {
  open_ok = true;
  chmod_ok = true;
  read_ok = true;
  create_ok = true;
  write_ok = true;
  sync_ok = true;
  close_ok = true;
  update_ok = true;
  random = sample_random;
  sha256 = λ b. 1 ∷ b;
}

zeros-bytes : (n : ℕ) → All (λ x. x < 256) (zeros n)
zeros-bytes zero = tt
zeros-bytes (suc n) = (ground arith, zeros-bytes n)

platform-IsRandom : IsRandom platform
platform-IsRandom = record {
  lengths = sample_lengths;
  bytes = λ n b h. let same : zeros n ≡ b = ground (arith, h) in rw (sym same) (zeros-bytes n);
}

abbrev new_meta : Meta
new_meta = record { salt = []; fingerprint = [] }

abbrev kept_meta : Meta
kept_meta = record { salt = zeros 16; fingerprint = 1 ∷ zeros 32 }

abbrev store : Opened
store = record { salt = zeros 16; master_key = zeros 32 }

abbrev key_disk : Dict Entry
key_disk = (codes "db.key", file (hex_encode (zeros 32) ++ codes "\n")) ∷ []

first_runs : open_vault platform (codes "db") none new_meta [] ≡ (ok store, kept_meta, key_disk)
unfolding open_vault initialize load_master_key create_key_file finish check_fingerprint options_for
    trim_space lookup insert hex_encode
first_runs = refl

open_again_example :
    open_vault platform (codes "db") none kept_meta key_disk ≡ (ok store, kept_meta, key_disk)
open_again_example =
    open_again platform platform (codes "db") none new_meta kept_meta [] key_disk store
      platform-IsRandom (refl, refl, refl) refl (λ e. absurd (ground (arith, e))) first_runs

open_fingerprint_example :
    (platform.sha256 store.master_key ≡ kept_meta.fingerprint)
    × (kept_meta.fingerprint ≡ kept_meta.fingerprint)
    × (key_disk ≡ key_disk)
open_fingerprint_example =
    open_fingerprint platform (codes "db") none kept_meta kept_meta key_disk key_disk store
      platform-IsRandom refl open_again_example

close_runs :
    close_vault (record { salt = 5 ∷ []; master_key = 6 ∷ [] })
    ≡ record { salt = 0 ∷ []; master_key = 0 ∷ [] }
unfolding close_vault zeroed
close_runs = refl
