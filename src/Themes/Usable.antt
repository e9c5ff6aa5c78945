-- ===== src/Themes/Usable.antt =====
-- Every theme of a catalog can be shown.
use go_webssh.Base.{
  ap, ◌∙◌, is_some, ◌≡◌, sym, inl, inr, false, Option, List, [], ◌∷◌, ok, arith, All, is_empty,
  Bool-cases, Option-cases, Result-cases, not, ◌||◌,
}
use go_webssh.Text.{Text, codes, text_eq, trim_space, to_lower, has_suffix}
use go_webssh.Dict.{Dict, insert, lookup}
use go_webssh.Vault.Listing.Laws.{Reorders}
use go_webssh.Themes.Order.{is_among-ordered_names}
use go_webssh.Themes.{
  Theme, Value, text_value, other_value, read_colors, color, parse_theme, Entry, stem, load_dir,
  Directory, missing, uninspected, regular, holds, overlay, load, names, ordered_names, is_among,
}

-- No color is empty.
abbrev pub AllGiven : Theme → Type 0
AllGiven = All (λ (entry : Text × Text). is_empty entry.1 ≡ false)

-- A theme with an id, no empty color, and both grounds.
abbrev pub IsUsable : Text × Theme → Type 0
IsUsable (id, theme) =
    (is_empty id ≡ false)
    × AllGiven theme
    × (is_empty (color (codes "background") theme) ≡ false)
    × (is_empty (color (codes "foreground") theme) ≡ false)

insert-All :
    {V : Type 0} (P : Text × V → Type 0) (key : Text) (v : V) (m : Dict V)
    → P (key, v)
    → All P m
    → All P (insert key v m)
unfolding insert
insert-All P key v [] p h = (p, tt)
insert-All P key v (entry ∷ m) p (q, h) = elim (Bool-cases (text_eq entry.0 key)) [
  | inl same ↦ rw same (p, h)
  | inr other ↦ rw other (q, insert-All P key v m p h)
]

read_colors-AllGiven :
    (raw : Dict Value) (theme out : Theme)
    → AllGiven theme
    → read_colors raw theme ≡ ok out
    → AllGiven out
unfolding read_colors
read_colors-AllGiven [] theme out given h =
    let same : theme ≡ out = ground (arith, h) in rw (sym same) given
read_colors-AllGiven ((key, text_value s) ∷ raw) theme out given h =
    elim (Bool-cases (text_eq key (codes "name"))) [
      | inl meta ↦ read_colors-AllGiven raw theme out given (ground (arith, h, meta))
      | inr color_key ↦ elim (Bool-cases (is_empty (trim_space s))) [
        | inl blank ↦ absurd (ground (arith, h, color_key, blank))
        | inr ink ↦
            read_colors-AllGiven raw (insert key (trim_space s) theme) out
              (insert-All (λ (entry : Text × Text). is_empty entry.1 ≡ false) key (trim_space s)
                theme ink given)
              (ground (arith, h, color_key, ink))
      ]
    ]
read_colors-AllGiven ((key, other_value) ∷ raw) theme out given h =
    elim (Bool-cases (text_eq key (codes "name"))) [
      | inl meta ↦ read_colors-AllGiven raw theme out given (ground (arith, h, meta))
      | inr color_key ↦ absurd (ground (arith, h, color_key))
    ]

module _ (decode : Text → Option (Dict Value)) where
  parse_theme-IsUsable :
      (id content : Text) (theme : Theme)
      → parse_theme decode id content ≡ ok theme
      → IsUsable (id, theme)
  unfolding parse_theme
  parse_theme-IsUsable id content theme h = elim (Option-cases (decode (trim_space content))) [
    | inl bad ↦ absurd (ground (arith, h, bad))
    | inr (raw, decodes) ↦ elim (Result-cases (read_colors raw [])) [
      | inr (e, fails) ↦ absurd (ground (arith, h, decodes, fails))
      | inl (read, reads) ↦
          let same : read ≡ theme = ground (arith, h, decodes, reads) in
          let given = read_colors-AllGiven raw [] read tt reads in
          (
            ground (arith, h, decodes, reads),
            rw (sym same) given,
            ground (arith, h, decodes, reads),
            ground (arith, h, decodes, reads),
          )
    ]
  ]

  load_dir-IsUsable :
      (entries : List Entry) (out themes : Dict Theme)
      → All IsUsable out
      → load_dir decode entries out ≡ ok themes
      → All IsUsable themes
  unfolding load_dir
  load_dir-IsUsable [] out themes usable h =
      let same : out ≡ themes = ground (arith, h) in rw (sym same) usable
  load_dir-IsUsable (entry ∷ entries) out themes usable h =
      elim (Bool-cases (entry.is_dir || not (has_suffix (to_lower entry.name) (codes ".json")))) [
        | inl skipped ↦ load_dir-IsUsable entries out themes usable (ground (arith, h, skipped))
        | inr theme_file ↦ elim (Option-cases entry.content) [
          | inl unread ↦ absurd (ground (arith, h, theme_file, unread))
          | inr (content, reads) ↦
              elim (Result-cases (parse_theme decode (stem entry.name) content)) [
                | inr (e, fails) ↦ absurd (ground (arith, h, theme_file, reads, fails))
                | inl (theme, parses) ↦
                    load_dir-IsUsable entries (insert (stem entry.name) theme out) themes
                      (insert-All IsUsable (stem entry.name) theme out
                        (parse_theme-IsUsable (stem entry.name) content theme parses) usable)
                      (ground (arith, h, theme_file, reads, parses))
              ]
        ]
      ]

  overlay-IsUsable :
      (found : Directory) (out themes : Dict Theme)
      → All IsUsable out
      → overlay decode found out ≡ ok themes
      → All IsUsable themes
  unfolding overlay
  overlay-IsUsable missing out themes usable h =
      let same : out ≡ themes = ground (arith, h) in rw (sym same) usable
  overlay-IsUsable uninspected out themes usable h = absurd (ground (arith, h))
  overlay-IsUsable regular out themes usable h = absurd (ground (arith, h))
  overlay-IsUsable (holds entries) out themes usable h =
      load_dir-IsUsable entries out themes usable h

  -- Every theme of a catalog that loads has an id, a background, a foreground and no empty color.
  load-IsUsable :
      (embedded : List Entry) (dir : Text) (look : Text → Directory) (themes : Dict Theme)
      → load decode embedded dir look ≡ ok themes
      → All IsUsable themes
  unfolding load
  load-IsUsable embedded dir look themes h = elim (Result-cases (load_dir decode embedded [])) [
    | inr (e, fails) ↦ absurd (ground (arith, h, fails))
    | inl (out, loads) ↦
        let usable = load_dir-IsUsable embedded [] out tt loads in
        elim (Bool-cases (is_empty (trim_space dir))) [
          | inl nowhere ↦
              let same : out ≡ themes = ground (arith, h, loads, nowhere) in rw (sym same) usable
          | inr somewhere ↦
              overlay-IsUsable (look (trim_space dir)) out themes usable
                (ground (arith, h, loads, somewhere))
        ]
  ]

  -- The names that are shown are exactly those of the themes that are loaded, and each of these has an id, a background, a
  -- foreground and no empty color, if the sort only moves names.
  pub names_sound :
      (sort : List Text → List Text) (embedded : List Entry) (dir : Text) (look : Text → Directory)
      (shown : List Text)
      → Reorders sort
      → names sort decode embedded dir look ≡ ok shown
      → (themes : Dict Theme) × (load decode embedded dir look ≡ ok themes)
        × All IsUsable themes
        × ((name : Text) → is_among name shown ≡ is_some (lookup name themes))
  unfolding names
  names_sound sort embedded dir look shown moves h =
      elim (Result-cases (load decode embedded dir look)) [
        | inr (e, fails) ↦ absurd (ground (arith, h, fails))
        | inl (themes, loads) ↦
            let same : ordered_names sort themes ≡ shown = ground (arith, h, loads) in
            (
              themes,
              loads,
              load-IsUsable embedded dir look themes loads,
              λ name. ap (is_among name) (sym same) ∙ is_among-ordered_names name sort themes moves,
            )
      ]
