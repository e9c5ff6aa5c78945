-- ===== src/Themes/Tests.antt =====
-- A catalog of two themes, and the theorems there.
use mathlib.Core.List.Perm
use go_webssh.Base.{
  ◌≡◌, refl, false, Option, none, some, List, [], ◌∷◌, ok, All, any, is_some, if◌then◌else◌,
}
use go_webssh.Text.{Text, codes, text_eq, trim_space, to_lower, has_suffix, cut_last}
use go_webssh.Dict.{Dict, lookup, insert}
use go_webssh.Themes.{
  names, Theme, Value, text_value, other_value, parse_theme, read_colors, Entry, stem, load_dir,
  Directory, holds, overlay, load, ordered_names, present, extra, is_among,
}
use go_webssh.Themes.Usable.{IsUsable, names_sound}

abbrev theme : Theme
theme = (codes "background", codes "#000") ∷ (codes "foreground", codes "#fff") ∷ []

-- Files hold one letter here, which stands for their content.
abbrev decode : Text → Option (Dict Value)
decode s =
    if text_eq s (codes "a")
    then some (
        (codes "name", other_value)
        ∷ (codes "background", text_value (codes " #000"))
        ∷ (codes "foreground", text_value (codes "#fff"))
        ∷ [])
    else none

abbrev built_in : List Entry
built_in =
    record { name = codes "nord.json"; is_dir = false; content = some (codes " a ") }
    ∷ record { name = codes "README.md"; is_dir = false; content = none }
    ∷ []

abbrev added : List Entry
added = record { name = codes "mine.JSON"; is_dir = false; content = some (codes "a") } ∷ []

abbrev look : Text → Directory
look dir = holds added

abbrev catalog : Dict Theme
catalog = (codes "nord", theme) ∷ (codes "mine", theme) ∷ []

load_runs : load decode built_in (codes "d") look ≡ ok catalog
unfolding load load_dir overlay parse_theme read_colors stem trim_space to_lower has_suffix text_eq
    insert lookup cut_last
load_runs = refl

abbrev as_is : List Text → List Text
as_is xs = xs

shown_runs : names as_is decode built_in (codes "d") look ≡ ok (codes "nord" ∷ codes "mine" ∷ [])
unfolding names load load_dir overlay parse_theme read_colors stem trim_space to_lower has_suffix
    text_eq insert lookup cut_last ordered_names present extra is_among any
shown_runs = refl

names_sound_example :
    (themes : Dict Theme) × (load decode built_in (codes "d") look ≡ ok themes)
    × All IsUsable themes
    × ((name : Text)
        → is_among name (codes "nord" ∷ codes "mine" ∷ []) ≡ is_some (lookup name themes))
names_sound_example =
    names_sound decode as_is built_in (codes "d") look (codes "nord" ∷ codes "mine" ∷ [])
      (λ xs. Perm.refl xs) shown_runs

names_runs : ordered_names as_is catalog ≡ codes "nord" ∷ codes "mine" ∷ []
unfolding ordered_names present extra is_among any text_eq lookup
names_runs = refl
