-- ===== src/Auth/Store/Trace.antt =====
-- Requests and clean-up rounds in any order: the store answers as a map that never forgets would,
-- read at the time of the question.
use go_webssh.Base.{ℕ, ◌≤◌, ◌≡◌, refl, Option, none, some, List, [], ◌∷◌, arith, if◌then◌else◌, ◌∙◌}
use go_webssh.Int.{ℤ}
use go_webssh.Text.{Text, text_eq}
use go_webssh.Dict.{lookup, keep_if}
use go_webssh.Auth.Store.{
  SessionInfo, Store, is_expired, add_duration, lifetime, new_store, cleanup, create, get, delete,
}
use go_webssh.Auth.Store.Laws.{
  view, IsValid, get-view, cleanup-view, delete-view, create-view, create-IsValid, get-IsValid,
  delete-IsValid, cleanup-IsValid,
}

-- What can happen to the store, each under its lock. A login that found no random bytes is left
-- out, since it does not touch the store.
pub data Event : Type 0 where
  login : (token username : Text) → Option ℤ → Event
  ask : Text → Event
  forget : Text → Event
  sweep : Event

-- An event's answer (`none` but for a question that is answered) and the store behind it.
unfoldable pub handle : ℕ → Event → Store → Option SessionInfo × Store
unfolding create get delete cleanup
handle now (login token username ttl) s = (none, (create now (some token) username ttl s).1)
handle now (ask token) s = get now token s
handle now (forget token) s = (none, delete token s)
handle now sweep s = (none, cleanup now s)

unfoldable pub run : List (ℕ × Event) → Store → List (Option SessionInfo)
unfolding handle
run [] s = []
run ((now, e) ∷ trace) s = let (answer, s') = handle now e s in answer ∷ run trace s'

-- The specification: what each token was last issued for, with nothing removed but by `Delete`.
abbrev pub Issued : Type 0
Issued = Text → Option SessionInfo

-- The clock does not run backwards.
abbrev pub IsOrdered : ℕ → List (ℕ × Event) → Type 0
IsOrdered start [] = Unit
IsOrdered start ((now, e) ∷ trace) = (start ≤ now) × IsOrdered now trace

module _ (ttl : ℤ) where
  abbrev pub issue : ℕ → Event → Issued → Issued
  issue now (login token username given) m j =
      if text_eq token j
      then some (record { username = username; expires_at = add_duration now (lifetime ttl given) })
      else m j
  issue now (forget token) m j = if text_eq token j then none else m j
  issue now _ m j = m j

  abbrev pub answer_of : ℕ → Event → Issued → Option SessionInfo
  answer_of now (ask token) m = keep_if (is_expired now) (m token)
  answer_of now _ m = none

  abbrev pub answers : List (ℕ × Event) → Issued → List (Option SessionInfo)
  answers [] m = []
  answers ((now, e) ∷ trace) m = answer_of now e m ∷ answers trace (issue now e m)

  -- The store holds what has been issued, from the given time on.
  record Holds (now : ℕ) (s : Store) (m : Issued) : Type 0 where
    valid : IsValid s
    same_ttl : s.ttl ≡ ttl
    agrees : (t : ℕ) (j : Text) → now ≤ t → view s t j ≡ keep_if (is_expired t) (m j)

  handle-Holds :
      (now : ℕ) (e : Event) (s : Store) (m : Issued)
      → Holds now s m
      → ((handle now e s).0 ≡ answer_of now e m) × Holds now (handle now e s).1 (issue now e m)
  unfolding handle
  handle-Holds now (login token username given) s m h =
      let (v, t) = create-IsValid now token username s h.valid given in
      (
        refl,
        record {
          valid = v;
          same_ttl = t ∙ h.same_ttl;
          agrees = λ t j le.
              ground
                (arith, create-view now t token j username given s, h.agrees t j le, h.same_ttl);
        },
      )
  handle-Holds now (ask token) s m h =
      let (v, t) = get-IsValid now token s h.valid in
      (
        (get-view now now token token s (omega arith)).0 ∙ h.agrees now token (omega arith),
        record {
          valid = v;
          same_ttl = t ∙ h.same_ttl;
          agrees = λ t j le. (get-view now t token j s le).1 ∙ h.agrees t j le;
        },
      )
  handle-Holds now (forget token) s m h =
      let (v, t) = delete-IsValid now token s h.valid in
      (
        refl,
        record {
          valid = v;
          same_ttl = t ∙ h.same_ttl;
          agrees = λ t j le. ground (arith, delete-view t token j s, h.agrees t j le);
        },
      )
  handle-Holds now sweep s m h =
      let (v, t) = cleanup-IsValid now [] s h.valid in
      (
        refl,
        record {
          valid = v;
          same_ttl = t ∙ h.same_ttl;
          agrees = λ t j le. cleanup-view now t j s h.valid le ∙ h.agrees t j le;
        },
      )

  Holds-later :
      (now later : ℕ) (s : Store) (m : Issued) → now ≤ later → Holds now s m → Holds later s m
  Holds-later now later s m le h = record {
    valid = h.valid;
    same_ttl = h.same_ttl;
    agrees = λ t j k. h.agrees t j (omega arith);
  }

  run-answers :
      (start : ℕ) (trace : List (ℕ × Event)) (s : Store) (m : Issued)
      → IsOrdered start trace
      → Holds start s m
      → run trace s ≡ answers trace m
  unfolding run
  run-answers start [] s m o h = refl
  run-answers start ((now, e) ∷ trace) s m (le, o) h =
      let (same, later) = handle-Holds now e s m (Holds-later start now s m le h) in
      cc (same, run-answers now trace (handle now e s).1 (issue now e m) o later)

-- Whatever the order of logins, questions, logouts and clean-up rounds, as long as the clock does
-- not run backwards, a new store answers each question as the map of all sessions that were issued
-- and not deleted, read at that time: neither a clean-up round nor an expired entry shows.
pub run-new_store :
    (ttl : ℤ) (trace : List (ℕ × Event))
    → IsOrdered 0 trace
    → run trace (new_store ttl) ≡ answers (new_store ttl).ttl trace (λ _. none)
unfolding new_store lookup
run-new_store ttl trace o =
    run-answers (new_store ttl).ttl 0 trace (new_store ttl) (λ _. none) o
      (record { valid = tt; same_ttl = refl; agrees = λ t j le. refl })
