-- ===== src/Cli/Run/Laws.antt =====
-- What `Run` asks for, and what the server makes of it.
use go_webssh.Base.{
  ℕ, ◌≤◌, ◌≡◌, refl, ap, sym, inl, inr, Bool, true, false, [], ◌∷◌, Result, ok, arith, is_empty,
  Option-cases, Result-cases, ◌||◌, ◌&&◌, not,
}
use go_webssh.Int.{ℤ, pos, negsuc, InRange, out_of_range}
use go_webssh.Text.{Text, codes, trim_space, trim_left, trim_right}
use go_webssh.Ws.Protocol.{ConnectData}
use go_webssh.Ws.Connect.{or_else, filled}
use go_webssh.Cli.Saved.{SavedCredential, Api, fetch_saved}
use go_webssh.Cli.Run.{
  Options, Platform, RunError, Target, clamp, clamp_size, window_of, expand_path,
  read_identity_file, from_options, with_saved, find_target, find_key, find_passphrase, run_request,
  connect_data,
}

clamp-InRange : (lo hi : ℕ) (n : ℤ) → lo ≤ hi → InRange lo hi (clamp lo hi n)
unfolding clamp
clamp-InRange lo hi (pos n) h = ground arith
clamp-InRange lo hi (negsuc n) h = ground arith

window_of-InRange :
    (p : Platform) → InRange 20 500 ((window_of p).0) × InRange 5 200 ((window_of p).1)
unfolding window_of clamp_size
window_of-InRange p = elim (Option-cases p.window) [
  | inl unknown ↦
      rw unknown
        (clamp-InRange 20 500 (pos 80) (ground arith), clamp-InRange 5 200 (pos 24) (ground arith))
  | inr ((cols, rows), known) ↦
      rw known (clamp-InRange 20 500 cols (ground arith), clamp-InRange 5 200 rows (ground arith))
]

-- The steps of a request that is made.
run_parts :
    (p : Platform) (api : Api) (opt : Options) (cd : ConnectData)
    → run_request p api opt ≡ ok cd
    → (t : Target) × (key phrase : Text) × (find_target api opt ≡ ok t)
      × (find_key p opt t.key ≡ ok key)
      × (find_passphrase p key t.passphrase ≡ ok phrase)
      × (is_empty t.host ≡ false)
      × (is_empty t.user ≡ false)
      × (cd ≡ connect_data p opt t key phrase)
unfolding run_request
run_parts p api opt cd h = elim (Result-cases (find_target api opt)) [
  | inr (e, fails) ↦ absurd (ground (arith, h, fails))
  | inl (t, found) ↦ elim (Result-cases (find_key p opt t.key)) [
    | inr (e, fails) ↦ absurd (ground (arith, h, found, fails))
    | inl (key, has_key) ↦ elim (Result-cases (find_passphrase p key t.passphrase)) [
      | inr (e, fails) ↦ absurd (ground (arith, h, found, has_key, fails))
      | inl (phrase, has_phrase) ↦ (
        t,
        key,
        phrase,
        found,
        has_key,
        has_phrase,
        ground (arith, h, found, has_key, has_phrase),
        ground (arith, h, found, has_key, has_phrase),
        sym (ok_injective _ _ (ground (arith, h, found, has_key, has_phrase))),
      )
    ]
  ]
]
  where
    ok_injective : (a b : ConnectData) → ◌≡◌ {A = Result RunError ConnectData} (ok a) (ok b) → a ≡ b
    ok_injective a b e = ground (arith, e)

or_else-given : (x y : Text) → is_empty y ≡ false → is_empty (or_else x y) ≡ false
or_else-given [] y h = h
or_else-given (c ∷ x) y h = refl

or_else-same : (x y : Text) → is_empty x ≡ false → or_else x y ≡ x
or_else-same [] y h = absurd (ground arith)
or_else-same (c ∷ x) y h = refl

out-of-range-none : (lo hi : ℕ) (n : ℤ) → InRange lo hi n → out_of_range lo hi n ≡ false
out-of-range-none lo hi (pos n) h = ground arith
out-of-range-none lo hi (negsuc n) h = ground arith

use_herdr_same : (b : Bool) → (b || (not b && b)) ≡ b
use_herdr_same true = refl
use_herdr_same false = refl

-- What the server fills in leaves the request as it is: its window, its terminal and its choice of Herdr.
connect_data-filled :
    (p : Platform) (opt : Options) (t : Target) (key phrase fresh : Text)
    → let cd = connect_data p opt t key phrase in
      let used = filled fresh cd in
      (used.cols ≡ cd.cols)
      × (used.rows ≡ cd.rows)
      × (used.term ≡ cd.term)
      × (used.use_herdr ≡ cd.use_herdr)
unfolding connect_data filled
connect_data-filled p opt t key phrase fresh =
    let (cols, rows) = window_of-InRange p in
    let term =
      or_else-given (or_else t.term (trim_space p.term_env)) (codes "xterm-256color") refl in
    (
      rw (out-of-range-none 20 500 ((window_of p).0) cols) refl,
      rw (out-of-range-none 5 200 ((window_of p).1) rows) refl,
      or_else-same (or_else (or_else t.term (trim_space p.term_env)) (codes "xterm-256color"))
          (codes "xterm-256color") term,
      use_herdr_same t.use_tmux,
    )

-- The request that `Run` makes names a host and a user, and the server uses its window, its terminal and its choice of
-- Herdr as they are.
pub run_request-filled :
    (p : Platform) (api : Api) (opt : Options) (cd : ConnectData) (fresh : Text)
    → run_request p api opt ≡ ok cd
    → (is_empty cd.host ≡ false)
      × (is_empty cd.username ≡ false)
      × ((filled fresh cd).cols ≡ cd.cols)
      × ((filled fresh cd).rows ≡ cd.rows)
      × ((filled fresh cd).term ≡ cd.term)
      × ((filled fresh cd).use_herdr ≡ cd.use_herdr)
unfolding connect_data
run_request-filled p api opt cd fresh h =
    let (t, key, phrase, found, has_key, has_phrase, host, user, same) = run_parts p api opt cd h in
    let (cols, rows, term, herdr) = connect_data-filled p opt t key phrase fresh in
    rw same (host, user, cols, rows, term, herdr)

find_target-saved :
    (api : Api) (opt : Options) (s : SavedCredential) (t : Target)
    → is_empty opt.saved ≡ false
    → is_empty opt.passphrase ≡ true
    → fetch_saved api opt.saved ≡ ok s
    → find_target api opt ≡ ok t
    → t.passphrase ≡ s.passphrase
unfolding find_target with_saved from_options
find_target-saved api opt s t named bare fetched h = ground (arith, named, bare, fetched, h)

blank : trim_space [] ≡ []
unfolding trim_space trim_left trim_right
blank = refl

read_identity_file-given :
    (p : Platform) (path key : Text) → read_identity_file p path ≡ ok key → is_empty key ≡ false
unfolding read_identity_file
read_identity_file-given p path [] h = elim (Option-cases (p.read_file (expand_path p path))) [
  | inl missing ↦ absurd (ground (arith, h, missing))
  | inr (text, there) ↦
      let same : text ≡ [] = ground (arith, h, there) in
      absurd (ground (arith, h, there, ap trim_space same, blank))
]
read_identity_file-given p path (c ∷ key) h = refl

find_key-named :
    (p : Platform) (opt : Options) (known key : Text)
    → is_empty opt.identity_file ≡ false
    → find_key p opt known ≡ ok key
    → read_identity_file p opt.identity_file ≡ ok key
unfolding find_key
find_key-named p opt known key named h =
    elim (Result-cases (read_identity_file p opt.identity_file)) [
      | inr (e, fails) ↦ absurd (ground (arith, h, named, fails))
      | inl (text, read) ↦
          let given = read_identity_file-given p opt.identity_file text read in
          ground (arith, h, named, read, given)
    ]

-- Where a key is named and the passphrase is not given, the key goes with the passphrase of the saved credential, if that
-- has one.
pub run_request-passphrase :
    (p : Platform) (api : Api) (opt : Options) (cd : ConnectData) (s : SavedCredential)
    → run_request p api opt ≡ ok cd
    → is_empty opt.saved ≡ false
    → is_empty opt.identity_file ≡ false
    → is_empty opt.passphrase ≡ true
    → fetch_saved api opt.saved ≡ ok s
    → is_empty s.passphrase ≡ false
    → (read_identity_file p opt.identity_file ≡ ok cd.private_key) × (cd.passphrase ≡ s.passphrase)
unfolding connect_data find_passphrase
run_request-passphrase p api opt cd s h saved named bare fetched locked =
    let (t, key, phrase, found, has_key, has_phrase, host, user, same) = run_parts p api opt cd h in
    let from_saved = find_target-saved api opt s t saved bare fetched found in
    let reads = find_key-named p opt t.key key named has_key in
    rw same (reads, ground (arith, has_phrase, from_saved, locked))
