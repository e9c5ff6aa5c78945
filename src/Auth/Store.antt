-- ===== src/Auth/Store.antt =====
-- The in-memory session store: `NewStore`, `Create`, `Get`, `Delete` and the clean-up loop. Each
-- operation holds the store's lock from its first access to its last, so it is one step.
pub mod Laws
pub mod Trace
use go_webssh.Base.{ℕ, ◌+◌, ◌-◌, ◌*◌, Bool, Option, none, some, List, [], ltb, if◌then◌else◌}
use go_webssh.Int.{ℤ, pos, pos_part, neg_part, leb_ℤ, ltb_ℤ}
use go_webssh.Text.{Text}
use go_webssh.Dict.{Dict, lookup, insert, erase, erase_if}

abbrev pub second : ℕ
second = 1_000_000_000

abbrev pub hour : ℕ
hour = 3600 * second

pub record SessionInfo : Type 0 where
  pub username : Text
  pub expires_at : ℕ

pub record Store : Type 0 where
  pub sessions : Dict SessionInfo
  pub ttl : ℤ

-- `NewStore`, less the start of the clean-up loop.
unfoldable pub new_store : ℤ → Store
new_store ttl = record { sessions = []; ttl = if leb_ℤ ttl (pos 0) then pos (12 * hour) else ttl }

-- `now.After(info.ExpiresAt)`
abbrev pub is_expired : ℕ → SessionInfo → Bool
is_expired now info = ltb info.expires_at now

-- One round of `cleanupLoop`.
unfoldable pub cleanup : ℕ → Store → Store
unfolding erase_if
cleanup now s = record s { sessions = erase_if (is_expired now) s.sessions }

-- `t.Add(d)`
abbrev pub add_duration : ℕ → ℤ → ℕ
add_duration t d = t + pos_part d - neg_part d

-- The lifetime of a new session: the one that is asked for, if it is positive, or the store's.
abbrev pub lifetime : ℤ → Option ℤ → ℤ
lifetime ttl none = ttl
lifetime ttl (some given) = if ltb_ℤ (pos 0) given then given else ttl

-- `Create`, with the token that the random bytes encode (`none` where they cannot be read) and the
-- optional lifetime. The result is the token and the time at which it expires.
unfoldable pub create : ℕ → Option Text → Text → Option ℤ → Store → Option (Text × ℕ) × Store
unfolding insert
create now none username ttl s = (none, s)
create now (some token) username ttl s =
    let expires = add_duration now (lifetime s.ttl ttl) in
    (
      some (token, expires),
      record s {
        sessions = insert token (record { username = username; expires_at = expires }) s.sessions;
      },
    )

-- What `Get` does with the entry that it finds: an expired one is deleted.
abbrev pub get_found : ℕ → Text → Option SessionInfo → Store → Option SessionInfo × Store
get_found now token none s = (none, s)
get_found now token (some info) s =
    if is_expired now info
    then (none, record s { sessions = erase token s.sessions })
    else (some info, s)

-- `Get`
unfoldable pub get : ℕ → Text → Store → Option SessionInfo × Store
unfolding lookup erase
get now token s = get_found now token (lookup token s.sessions) s

-- `Delete`
unfoldable pub delete : Text → Store → Store
unfolding erase
delete token s = record s { sessions = erase token s.sessions }
