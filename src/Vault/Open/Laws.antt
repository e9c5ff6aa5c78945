-- ===== src/Vault/Open/Laws.antt =====
-- Opening the credential database again, and opening it with another key.
use go_webssh.Base.{
  ◌≡◌, refl, sym, ◌∙◌, ap, ◌≢◌, inl, inr, false, Option, [], ◌∷◌, Result, ok, err, arith, is_empty,
  Option-cases, Bool-cases, Result-cases,
}
use go_webssh.Text.{Text}
use go_webssh.Text.Laws.{text_eq_iff, text_eq_refl}
use go_webssh.Dict.{Dict}
use go_webssh.Auth.Primitives.{Bytes}
use go_webssh.Vault.Open.{
  OpenOptions, Entry, Platform, Meta, Opened, OpenError, load_master_key, options_for, initialize,
  check_fingerprint, finish, open_vault,
}
use go_webssh.Vault.Open.Keys.{Works, IsRandom, load_master_key-again, load_master_key-keeps}

not_nil : (xs : Bytes) → xs ≢ [] → is_empty xs ≡ false
not_nil [] h = absurd (h refl)
not_nil (x ∷ xs) h = refl

check_fingerprint-again :
    (p q : Platform) (key : Bytes) (meta kept : Meta)
    → p.sha256 ≡ q.sha256
    → p.sha256 key ≢ []
    → check_fingerprint p key meta ≡ ok kept
    → (check_fingerprint q key kept ≡ ok kept)
      × (is_empty kept.fingerprint ≡ false)
      × (kept.salt ≡ meta.salt)
      × (kept.fingerprint ≡ p.sha256 key)
unfolding check_fingerprint
check_fingerprint-again p q key meta kept hash given h =
    let agree : q.sha256 key ≡ p.sha256 key = ap (λ f. f key) (sym hash) in
    let filled : is_empty (p.sha256 key) ≡ false = not_nil (p.sha256 key) given in
    elim (Bool-cases (is_empty meta.fingerprint)) [
      | inl fresh ↦ ground (arith, h, fresh, agree, filled, text_eq_refl (p.sha256 key))
      | inr stored ↦ ground (arith, h, stored, agree, text_eq_iff meta.fingerprint (p.sha256 key))
    ]

initialize-again :
    (p q : Platform) (meta salted : Meta)
    → IsRandom p
    → initialize p meta ≡ ok salted
    → (is_empty salted.salt ≡ false) × (salted.fingerprint ≡ meta.fingerprint)
unfolding initialize
initialize-again p q meta salted random h = elim (Bool-cases (is_empty meta.salt)) [
  | inr stored ↦ ground (arith, h, stored)
  | inl fresh ↦ elim (Option-cases (p.random 16)) [
    | inl fails ↦ absurd (ground (arith, h, fresh, fails))
    | inr (salt, e) ↦ ground (arith, h, fresh, e, random.lengths 16 salt e)
  ]
]

finish-parts :
    (p : Platform) (salted kept : Meta) (loaded : Result OpenError Bytes × Dict Entry)
    (after : Dict Entry) (s : Opened)
    → finish p salted loaded ≡ (ok s, kept, after)
    → (loaded ≡ (ok s.master_key, after))
      × (check_fingerprint p s.master_key salted ≡ ok kept)
      × (s.salt ≡ kept.salt)
unfolding finish
finish-parts p salted kept (err e, disk) after s h = absurd (ground (arith, h))
finish-parts p salted kept (ok key, disk) after s h =
    elim (Result-cases (check_fingerprint p key salted)) [
      | inr (e, fails) ↦ absurd (ground (arith, h, fails))
      | inl (stored, fits) ↦ ground (arith, h, fits)
    ]

-- The parts of an opening that succeeds.
open_parts :
    (p : Platform) (path : Text) (given : Option OpenOptions) (meta kept : Meta)
    (disk after : Dict Entry) (s : Opened)
    → open_vault p path given meta disk ≡ (ok s, kept, after)
    → (salted : Meta) × (initialize p meta ≡ ok salted)
      × (load_master_key p (options_for path given) (is_empty salted.fingerprint) disk
          ≡ (ok s.master_key, after))
      × (check_fingerprint p s.master_key salted ≡ ok kept)
      × (s.salt ≡ kept.salt)
unfolding open_vault
open_parts p path given meta kept disk after s h = elim (Result-cases (initialize p meta)) [
  | inr (e, fails) ↦ absurd (ground (arith, h, fails))
  | inl (salted, made) ↦
      let finishes : finish p salted
            (load_master_key p (options_for path given) (is_empty salted.fingerprint) disk)
          ≡ (ok s, kept, after) =
        ground (arith, h, made) in
      let (loads, fits, salts) = finish-parts p salted kept _ after s finishes in
      (salted, made, loads, fits, salts)
]

-- What was opened opens again, on any platform where the files can be read, as the same store, and
-- this changes neither the database nor the disk.
pub open_again :
    (p q : Platform) (path : Text) (given : Option OpenOptions) (meta kept : Meta)
    (disk after : Dict Entry) (s : Opened)
    → IsRandom p
    → Works q
    → p.sha256 ≡ q.sha256
    → p.sha256 s.master_key ≢ []
    → open_vault p path given meta disk ≡ (ok s, kept, after)
    → open_vault q path given kept after ≡ (ok s, kept, after)
unfolding open_vault initialize finish
open_again p q path given meta kept disk after s random works hash filled h =
    let (salted, made, loads, fits, salts) = open_parts p path given meta kept disk after s h in
    let (again, stored, same_salt, print) =
      check_fingerprint-again p q s.master_key salted kept hash filled fits in
    let (salt_given, same_print) = initialize-again p q meta salted random made in
    let reload =
      load_master_key-again p q (options_for path given) (is_empty salted.fingerprint) false disk
        after s.master_key random works loads in
    let full : is_empty kept.salt ≡ false = rw same_salt salt_given in
    let settled : initialize q kept ≡ ok kept = rw (initialize, full) refl in
    let same_store : Opened = record { salt = kept.salt; master_key = s.master_key } in
    let finishes : finish q kept (ok s.master_key, after) ≡ (ok same_store, kept, after) =
      rw (finish, again) refl in
    let loaded : finish q kept
          (load_master_key q (options_for path given) (is_empty kept.fingerprint) after)
        ≡ (ok same_store, kept, after) =
      ap (λ b. finish q kept (load_master_key q (options_for path given) b after)) stored
      ∙ ap (finish q kept) reload
      ∙ finishes in
    ground (arith, settled, loaded, salts)

-- Where the database has the fingerprint of a key, it opens only under a key with this fingerprint,
-- and no key file is made or changed.
pub open_fingerprint :
    (p : Platform) (path : Text) (given : Option OpenOptions) (meta kept : Meta)
    (disk after : Dict Entry) (s : Opened)
    → IsRandom p
    → is_empty meta.fingerprint ≡ false
    → open_vault p path given meta disk ≡ (ok s, kept, after)
    → (p.sha256 s.master_key ≡ meta.fingerprint)
      × (kept.fingerprint ≡ meta.fingerprint)
      × (after ≡ disk)
unfolding check_fingerprint
open_fingerprint p path given meta kept disk after s random stored h =
    let (salted, made, loads, fits, salts) = open_parts p path given meta kept disk after s h in
    let (salt_given, same_print) = initialize-again p p meta salted random made in
    let closed : is_empty salted.fingerprint ≡ false = rw same_print stored in
    (
      ground
          (arith, fits, closed, same_print, text_eq_iff salted.fingerprint (p.sha256 s.master_key)),
      ground (arith, fits, closed, same_print),
      load_master_key-keeps p (options_for path given) disk after s.master_key
          (ap (λ b. load_master_key p (options_for path given) b disk) (sym closed) ∙ loads),
    )
