-- ===== src/Cli/Saved/Tests.antt =====
-- Saved credentials by name, and the theorem there.
use go_webssh.Base.{◌≡◌, ◌≢◌, ◌⊎◌, refl, none, List, [], ◌∷◌, ok, err}
use go_webssh.Text.{codes, text_eq, equal_fold, to_lower, has_prefix, trim_space}
use go_webssh.Cli.Saved.{
  Casing, Item, match_saved, scan, conclude, is_exact, is_prefix, name_required, ambiguous, Api,
  fetch_saved, content_of, no_list,
}
use go_webssh.Cli.Saved.Laws.{Answers, match_saved-Answers}

abbrev items : List Item
items =
    record { id = codes "a1"; name = codes "Web one" }
    ∷ record { id = codes "b2"; name = codes "Web" }
    ∷ record { id = codes "b3"; name = codes "Database" }
    ∷ []

-- Case in the scripts that map into ASCII.
abbrev ascii : Casing
ascii = record { equal_fold = equal_fold; to_lower = to_lower }

match_saved-Answers_example :
    ((trim_space (codes "b") ≡ []) × (match_saved ascii items (codes "b") ≡ err name_required))
    ⊎ ((trim_space (codes "b") ≢ [])
        × Answers ascii (trim_space (codes "b")) items (match_saved ascii items (codes "b")))
match_saved-Answers_example = match_saved-Answers ascii items (codes "b")

exact_runs : match_saved ascii items (codes " web") ≡ ok (codes "b2")
unfolding match_saved scan is_exact is_prefix text_eq equal_fold to_lower has_prefix trim_space
exact_runs = refl

prefix_runs : match_saved ascii items (codes "data") ≡ ok (codes "b3")
unfolding match_saved scan conclude is_exact is_prefix text_eq equal_fold to_lower has_prefix
    trim_space
prefix_runs = refl

ambiguous_runs : match_saved ascii items (codes "b") ≡ err ambiguous
unfolding match_saved scan conclude is_exact is_prefix text_eq equal_fold to_lower has_prefix
    trim_space
ambiguous_runs = refl

abbrev silent : Api
silent = record { casing = ascii; list_credentials = none; get_credential = λ id. none }

silent_runs : fetch_saved silent (codes "b") ≡ err no_list
unfolding fetch_saved content_of
silent_runs = refl
