-- ===== src/Vault/Open/Keys.antt =====
-- The master key file: what is written to it is read again.
use go_webssh.Base.{
  ℕ, ◌≡◌, refl, ap, inl, inr, ◌<◌, Bool, true, false, some, [], ◌∷◌, ◌++◌, ok, arith, All, is_empty,
  length, Option-cases, Bool-cases, ◌/◌, ◌%◌,
}
use go_webssh.Text.{Text, codes, trim_space, is_space}
use go_webssh.Text.Laws.{text_eq_refl}
use go_webssh.Text.Hex.{hex_encode, hex_decode-hex_encode, digit_char}
use go_webssh.Text.Trim.{IsSolid, trim_space-space}
use go_webssh.Dict.{Dict, lookup, insert, lookup-insert}
use go_webssh.Auth.Primitives.{Bytes}
use go_webssh.Vault.Primitives.{HasLengths}
use go_webssh.Vault.Open.{
  OpenOptions, Entry, symlink, unreadable, file, Platform, decode_master_key, read_key_file,
  create_key_file, load_master_key,
}

digit-solid : (n : ℕ) → n < 16 → is_space (digit_char n) ≡ false
unfolding is_space
digit-solid n h = ground arith

hex_encode-IsSolid : (bs : Bytes) → All (λ b. b < 256) bs → IsSolid (hex_encode bs)
unfolding hex_encode
hex_encode-IsSolid [] h = tt
hex_encode-IsSolid (b ∷ bs) (lt, h) = (
  digit-solid (b / 16) (omega arith),
  (digit-solid (b % 16) (omega arith), hex_encode-IsSolid bs h),
)

line_feed : is_space b'\n' ≡ true
unfolding is_space
line_feed = refl

-- The file of a new key reads back as the key.
decode_master_key-encoded :
    (key : Bytes)
    → length key ≡ 32
    → All (λ b. b < 256) key
    → decode_master_key (hex_encode key ++ codes "\n") ≡ some key
unfolding decode_master_key
decode_master_key-encoded key len bytes =
    rw
      (
        decode_master_key,
        trim_space-space b'\n' (hex_encode key) (hex_encode-IsSolid key bytes) line_feed,
        hex_decode-hex_encode key bytes,
        len,
      )
      refl

-- A platform on which an existing database and its key file can be read.
abbrev pub Works : Platform → Type 0
Works q = (q.open_ok ≡ true) × (q.chmod_ok ≡ true) × (q.read_ok ≡ true)

-- What the random source returns are bytes, as many as were asked for.
pub record IsRandom (p : Platform) : Type 0 where
  pub lengths : HasLengths p.random
  pub bytes : (n : ℕ) (b : Bytes) → p.random n ≡ some b → All (λ x. x < 256) b

read_key_file-same :
    (p q : Platform) (contents : Text) (key : Bytes)
    → Works q
    → read_key_file p contents ≡ ok key
    → read_key_file q contents ≡ ok key
unfolding read_key_file
read_key_file-same p q contents key works h = ground arith

create_key_file-found :
    (p q : Platform) (path : Text) (disk after : Dict Entry) (key : Bytes)
    → IsRandom p
    → Works q
    → create_key_file p path disk ≡ (ok key, after)
    → (contents : Text) × (lookup path after ≡ some (file contents))
      × (read_key_file q contents ≡ ok key)
unfolding create_key_file read_key_file
create_key_file-found p q path disk after key random works h = elim (Option-cases (p.random 32)) [
  | inl fails ↦ absurd (ground (arith, h, fails))
  | inr (made, e) ↦
      let same : made ≡ key = ground (arith, h, e) in
      let written : after ≡ insert path (file (hex_encode made ++ codes "\n")) disk =
        ground (arith, h, e) in
      let reads =
        decode_master_key-encoded made (random.lengths 32 made e) (random.bytes 32 made e) in
      (
        hex_encode made ++ codes "\n",
        rw
            (
              written,
              lookup-insert path path (file (hex_encode made ++ codes "\n")) disk,
              text_eq_refl path,
            )
            refl,
        rw (reads, works.1, works.2) (ap (λ k. ok k) same),
      )
]

-- A key that was loaded is loaded again, whether new keys are then allowed or not.
pub load_master_key-again :
    (p q : Platform) (opts : OpenOptions) (allow later : Bool) (disk after : Dict Entry)
    (key : Bytes)
    → IsRandom p
    → Works q
    → load_master_key p opts allow disk ≡ (ok key, after)
    → load_master_key q opts later after ≡ (ok key, after)
unfolding load_master_key
load_master_key-again p q opts allow later disk after key random works h =
    elim (Bool-cases (is_empty (trim_space opts.key_hex))) [
      | inr given ↦ ground (arith, h, given)
      | inl none_given ↦ elim (Option-cases (lookup opts.key_file disk)) [
        | inl absent ↦ elim (Bool-cases allow) [
          | inr refused ↦ absurd (ground (arith, h, none_given, absent, refused))
          | inl allowed ↦
              let (contents, found, reads) =
                create_key_file-found p q opts.key_file disk after key random works
                  (ground (arith, h, none_given, absent, allowed)) in
              rw (load_master_key, none_given, found, reads) refl
        ]
        | inr (symlink, there) ↦ absurd (ground (arith, h, none_given, there))
        | inr (unreadable, there) ↦ absurd (ground (arith, h, none_given, there))
        | inr (file contents, there) ↦
            let same : after ≡ disk = ground (arith, h, none_given, there) in
            let reads =
              read_key_file-same p q contents key works (ground (arith, h, none_given, there)) in
            rw (load_master_key, same, none_given, there, reads) (ap (λ d. (ok key, d)) same)
      ]
    ]

-- Where a fingerprint is stored, no key file is made.
pub load_master_key-keeps :
    (p : Platform) (opts : OpenOptions) (disk after : Dict Entry) (key : Bytes)
    → load_master_key p opts false disk ≡ (ok key, after)
    → after ≡ disk
unfolding load_master_key
load_master_key-keeps p opts disk after key h = elim (Option-cases (lookup opts.key_file disk)) [
  | inl absent ↦ ground (arith, h, absent)
  | inr (symlink, there) ↦ ground (arith, h, there)
  | inr (unreadable, there) ↦ ground (arith, h, there)
  | inr (file contents, there) ↦ ground (arith, h, there)
]
