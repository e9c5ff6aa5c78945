-- ===== src/Themes.antt =====
-- themes/catalog.go: which terminal themes there are, and in which order they are shown. A file is its name and its
-- content, which is none where it cannot be read; JSON is what it decodes to.
pub mod Order
pub mod Usable
mod Tests
use go_webssh.Base.{
  Bool, true, false, not, ◌&&◌, ◌||◌, Option, none, some, List, [], ◌∷◌, ◌++◌, Result, ok, err,
  ◌>>=◌, ◌>>◌, fail_if, or_fail, if◌then◌else◌, is_empty, is_some, any,
}
use go_webssh.Text.{Text, codes, text_eq, trim_space, to_lower, has_suffix, cut_last}
use go_webssh.Dict.{Dict, lookup, insert}

-- `Theme`
abbrev pub Theme : Type 0
Theme = Dict Text

-- A value of JSON: a string, or another.
pub data Value : Type 0 where
  text_value : Text → Value
  other_value : Value

pub data ThemeError : Type 0 where
  unreadable empty_file invalid_json no_string empty_color no_ground no_id : ThemeError
  bad_directory no_directory : ThemeError

-- The colors of a file, without its name.
unfoldable pub read_colors : Dict Value → Theme → Result ThemeError Theme
unfolding text_eq trim_space insert
read_colors [] theme = ok theme
read_colors ((key, text_value s) ∷ raw) theme =
    let kept = read_colors raw theme in
    let more = read_colors raw (insert key (trim_space s) theme) in
    if text_eq key (codes "name")
    then kept
    else if is_empty (trim_space s)
    then err empty_color
    else more
read_colors ((key, other_value) ∷ raw) theme =
    let kept = read_colors raw theme in if text_eq key (codes "name") then kept else err no_string

-- `theme[key]`, which is empty where the key is missing
abbrev pub color : Text → Theme → Text
color key theme = elim (lookup key theme) [ none ↦ [] | some s ↦ s ]

-- `parseTheme`, on what the trimmed content decodes to
unfoldable pub parse_theme : (Text → Option (Dict Value)) → Text → Text → Result ThemeError Theme
unfolding read_colors trim_space lookup
parse_theme decode id content = do
  fail_if (is_empty (trim_space content)) empty_file
  raw ← or_fail (decode (trim_space content)) invalid_json
  theme ← read_colors raw []
  fail_if
      (is_empty (color (codes "background") theme) || is_empty (color (codes "foreground") theme))
      no_ground
  fail_if (is_empty id) no_id
  ok theme

-- An entry of a directory.
pub record Entry : Type 0 where
  pub name : Text
  pub is_dir : Bool
  pub content : Option Text

-- `strings.TrimSuffix(name, filepath.Ext(name))`
unfoldable pub stem : Text → Text
unfolding cut_last
stem name = elim (cut_last b'.' name) [ none ↦ name | some (id, ext) ↦ id ]

-- `loadDir`, and `loadFS` on a directory without others in it
unfoldable pub load_dir :
    (Text → Option (Dict Value)) → List Entry → Dict Theme → Result ThemeError (Dict Theme)
unfolding parse_theme stem has_suffix to_lower insert
load_dir decode [] out = ok out
load_dir decode (entry ∷ entries) out =
    let skipped = load_dir decode entries out in
    let next = λ (theme : Theme). load_dir decode entries (insert (stem entry.name) theme out) in
    if entry.is_dir || not (has_suffix (to_lower entry.name) (codes ".json")) then skipped else (do
      content ← or_fail entry.content unreadable
      theme ← parse_theme decode (stem entry.name) content
      next theme)

-- The directory of a catalog: it is not there, it cannot be inspected, it is a file, or it has entries.
pub data Directory : Type 0 where
  missing uninspected regular : Directory
  holds : List Entry → Directory

-- What a directory adds to the themes.
unfoldable pub overlay :
    (Text → Option (Dict Value)) → Directory → Dict Theme → Result ThemeError (Dict Theme)
unfolding load_dir
overlay decode missing out = ok out
overlay decode uninspected out = err bad_directory
overlay decode regular out = err no_directory
overlay decode (holds entries) out = load_dir decode entries out

-- `Load`, with the entries that are built in
unfoldable pub load :
    (Text → Option (Dict Value))
    → List Entry
    → Text
    → (Text → Directory)
    → Result ThemeError (Dict Theme)
unfolding load_dir overlay trim_space
load decode embedded dir look = load_dir decode embedded [] >>= λ out.
    if is_empty (trim_space dir) then ok out else overlay decode (look (trim_space dir)) out

-- `PreferredOrder`
abbrev pub preferred_order : List Text
preferred_order =
    codes "github-light"
    ∷ codes "solarized-light"
    ∷ codes "catppuccin-latte"
    ∷ codes "catppuccin-mocha"
    ∷ codes "dracula"
    ∷ codes "tokyo-night"
    ∷ codes "one-dark"
    ∷ codes "nord"
    ∷ []

-- Whether a name is among some names.
unfoldable pub is_among : Text → List Text → Bool
unfolding any text_eq
is_among name = any (λ other. text_eq other name)

-- The names of an order that there are.
unfoldable pub present : Dict Theme → List Text → List Text
unfolding lookup
present themes [] = []
present themes (name ∷ names) =
    let rest = present themes names in if is_some (lookup name themes) then name ∷ rest else rest

-- The names that have not been seen.
unfoldable pub extra : List Text → Dict Theme → List Text
unfolding is_among
extra seen [] = []
extra seen ((name, theme) ∷ themes) =
    let rest = extra seen themes in if not (is_among name seen) then name ∷ rest else rest

-- `orderedNames`; `sort` is `sort.Strings`
unfoldable pub ordered_names : (List Text → List Text) → Dict Theme → List Text
unfolding present extra
ordered_names sort themes =
    let names = present themes preferred_order in names ++ sort (extra names themes)

-- `Names`
unfoldable pub names :
    (List Text → List Text)
    → (Text → Option (Dict Value))
    → List Entry
    → Text
    → (Text → Directory)
    → Result ThemeError (List Text)
unfolding load ordered_names
names sort decode embedded dir look =
    load decode embedded dir look >>= λ themes. ok (ordered_names sort themes)
