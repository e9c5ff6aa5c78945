-- ===== src/Cli/Saved.antt =====
-- `matchSaved` and `fetchSaved` of internal/cli/cli.go: a saved credential by its id or its name.
pub mod Laws
pub mod Matches
mod Tests
use go_webssh.Base.{
  ℕ, Bool, true, false, not, ◌||◌, Option, none, some, List, [], ◌∷◌, ◌++◌, Result, ok, err, ◌>>=◌,
  ◌>>◌, fail_if, or_fail, if◌then◌else◌, is_empty, ◌==◌,
}
use go_webssh.Int.{ℤ}
use go_webssh.Text.{Text, text_eq, has_prefix, trim_space}

-- `credentialSummary`, as far as it is matched.
pub record Item : Type 0 where
  pub id : Text
  pub name : Text

-- `savedCredential`
pub record SavedCredential : Type 0 where
  pub host : Text
  pub port : ℤ
  pub username : Text
  pub private_key : Text
  pub passphrase : Text
  pub term : Text
  pub use_tmux : Bool
  pub use_herdr : Bool

pub data SavedError : Type 0 where
  name_required ambiguous not_found no_list no_credential invalid_response no_private_key :
      SavedError

-- `strings.EqualFold` and `strings.ToLower`, over all scripts.
pub record Casing : Type 0 where
  pub equal_fold : Text → Text → Bool
  pub to_lower : Text → Text

-- `item.ID == nameOrID || strings.EqualFold(item.Name, nameOrID)`
unfoldable pub is_exact : Casing → Text → Item → Bool
unfolding text_eq
is_exact casing given item = text_eq item.id given || casing.equal_fold item.name given

-- The id or the name begins with what is given.
unfoldable pub is_prefix : Casing → Text → Item → Bool
unfolding has_prefix
is_prefix casing given item =
    has_prefix item.id given || has_prefix (casing.to_lower item.name) (casing.to_lower given)

-- What follows the loop of `matchSaved`.
unfoldable pub conclude : List Item → Result SavedError Text
conclude [] = err not_found
conclude (item ∷ []) = ok item.id
conclude (item ∷ _ ∷ _) = err ambiguous

-- The loop of `matchSaved`, with the matches so far.
unfoldable pub scan : Casing → Text → List Item → List Item → Result SavedError Text
unfolding is_exact is_prefix conclude
scan casing given matches [] = conclude matches
scan casing given matches (item ∷ items) =
    let with_item = scan casing given (matches ++ item ∷ []) items in
    let without_item = scan casing given matches items in
    if is_exact casing given item
    then ok item.id
    else if is_prefix casing given item
    then with_item
    else without_item

-- `matchSaved`
unfoldable pub match_saved : Casing → List Item → Text → Result SavedError Text
unfolding scan trim_space
match_saved casing items given =
    let wanted = trim_space given in
    if is_empty wanted then err name_required else scan casing wanted [] items

-- A reply of the server: its status, and its content if it decodes.
pub record HttpReply (A : Type 0) : Type 0 where
  pub status : ℕ
  pub content : Option A

-- What the requests of the client return, none where they fail, and the comparisons of `strings`.
pub record Api : Type 0 where
  pub casing : Casing
  pub list_credentials : Option (HttpReply (List Item))
  pub get_credential : Text → Option (HttpReply SavedCredential)

-- The content of a reply with status 200.
unfoldable pub content_of : {A : Type 0} → SavedError → Option (HttpReply A) → Result SavedError A
content_of missing reply = do
  r ← or_fail reply missing
  fail_if (not (r.status == 200)) missing
  or_fail r.content invalid_response

-- `fetchSaved`
unfoldable pub fetch_saved : Api → Text → Result SavedError SavedCredential
unfolding content_of match_saved trim_space
fetch_saved api given = do
  items ← content_of no_list api.list_credentials
  id ← match_saved api.casing items given
  item ← content_of no_credential (api.get_credential id)
  fail_if (is_empty (trim_space item.private_key)) no_private_key
  ok item
