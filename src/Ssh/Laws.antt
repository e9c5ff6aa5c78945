-- ===== src/Ssh/Laws.antt =====
-- What `Connect` opens and closes.
use go_webssh.Base.{
  ◌≡◌, refl, ◌∙◌, inl, inr, Bool, false, Option, none, some, List, [], ◌∷◌, ◌++◌, Result, ok, err,
  arith, Result-cases, Option-cases, Bool-cases, ◌==◌, if◌then◌else◌,
}
use go_webssh.Int.{ℤ}
use go_webssh.Code.{ApiError}
use go_webssh.Ssh.{
  Ssh, ConnectRequest, Session, Handle, Resource, a_client, a_session, SshEvent, opened, closed,
  Outcome, check_key, dial_client, herdr_available, probe_herdr, new_shell, start_shell, open_shell,
  connect,
}

abbrev is_same : Resource → Resource → Bool
is_same (a_client h) (a_client k) = h == k
is_same (a_session h) (a_session k) = h == k
is_same _ _ = false

-- The resources without the last that was opened of those equal to one, if there is any.
without : Resource → List Resource → Option (List Resource)
without r [] = none
without r (s ∷ left) =
    let rest = without r left in
    if is_same r s then some left else elim rest [ none ↦ none | some others ↦ some (s ∷ others) ]

-- The resources that are open after some events, the last first. There are none where something is closed that is
-- not open.
unfoldable pub open_after : List Resource → List SshEvent → Option (List Resource)
unfolding without
open_after left [] = some left
open_after left (opened r ∷ events) = open_after (r ∷ left) events
open_after left (closed r ∷ events) = elim (without r left) [
  | none ↦ none
  | some others ↦ open_after others events
]

-- What belongs to the result.
abbrev pub held : Result ApiError Session → List Resource
held (ok s) = a_session s.session ∷ a_client s.client ∷ []
held (err e) = []

-- What is open behind an outcome belongs to its result.
abbrev pub IsBalanced : List Resource → Outcome → Type 0
IsBalanced left out = open_after left (out.1) ≡ some (held (out.0))

closes_both :
    (client session : Handle)
    → open_after
        (a_session session ∷ a_client client ∷ [])
        (closed (a_session session) ∷ closed (a_client client) ∷ [])
      ≡ some []
unfolding open_after without
closes_both client session = ground arith

closes_client :
    (client : Handle) → open_after (a_client client ∷ []) (closed (a_client client) ∷ []) ≡ some []
unfolding open_after without
closes_client client = ground arith

closes_probe :
    (left : List Resource) (probe : Handle) (events : List SshEvent)
    → open_after left (opened (a_session probe) ∷ closed (a_session probe) ∷ events)
      ≡ open_after left events
unfolding open_after without
closes_probe left probe events = ground arith

module _ (ssh : Ssh) (req : ConnectRequest) where
  start_shell-opens :
      (client session : Handle) (herdr_active : Bool) (s : Session) (events : List SshEvent)
      → start_shell ssh req client session herdr_active ≡ (ok s, events)
      → (events ≡ []) × (s.client ≡ client) × (s.session ≡ session)
  unfolding start_shell
  start_shell-opens client session herdr_active s events h = ground arith

  start_shell-fails :
      (client session : Handle) (herdr_active : Bool) (e : ApiError) (events : List SshEvent)
      → start_shell ssh req client session herdr_active ≡ (err e, events)
      → events ≡ closed (a_session session) ∷ closed (a_client client) ∷ []
  unfolding start_shell
  start_shell-fails client session herdr_active e events h = ground arith

  outcome-IsBalanced :
      (client session : Handle) (herdr_active : Bool) (out : Outcome)
      → start_shell ssh req client session herdr_active ≡ out
      → IsBalanced (a_session session ∷ a_client client ∷ []) out
  unfolding open_after
  outcome-IsBalanced client session herdr_active (ok s, events) h =
      let (none_closed, same_client, same_session) =
        start_shell-opens client session herdr_active s events h in
      rw (none_closed, same_client, same_session) refl
  outcome-IsBalanced client session herdr_active (err e, events) h =
      rw (start_shell-fails client session herdr_active e events h) (closes_both client session)

  start_shell-IsBalanced :
      (client session : Handle) (herdr_active : Bool)
      → IsBalanced
          (a_session session ∷ a_client client ∷ [])
          (start_shell ssh req client session herdr_active)
  start_shell-IsBalanced client session herdr_active =
      outcome-IsBalanced client session herdr_active _ refl

  -- The shell once the probe is through.
  new_shell-IsBalanced :
      (client : Handle) (available : Bool)
      → IsBalanced (a_client client ∷ []) (new_shell ssh req client available)
  unfolding new_shell open_after
  new_shell-IsBalanced client available = elim (Option-cases (ssh.new_session 1 client)) [
    | inl refused ↦ rw (new_shell, refused) (closes_client client)
    | inr (session, opens) ↦ rw (new_shell, opens) (start_shell-IsBalanced client session available)
  ]

  -- The probe leaves nothing open.
  probe_herdr-closes :
      (client : Handle) (left : List Resource) (events : List SshEvent)
      → open_after left ((probe_herdr ssh req client).1 ++ events) ≡ open_after left events
  unfolding probe_herdr herdr_available
  probe_herdr-closes client left events = elim (Bool-cases req.use_herdr) [
    | inr plain ↦ rw plain refl
    | inl wanted ↦ elim (Option-cases (ssh.new_session 0 client)) [
      | inl refused ↦ rw (wanted, herdr_available, refused) refl
      | inr (probe, opens) ↦ rw (wanted, herdr_available, opens) (closes_probe left probe events)
    ]
  ]

  open_shell-IsBalanced : (client : Handle) → IsBalanced [] (open_shell ssh req client)
  unfolding open_shell open_after
  open_shell-IsBalanced client =
      let available = (probe_herdr ssh req client).0 in
      probe_herdr-closes client (a_client client ∷ []) ((new_shell ssh req client available).1)
      ∙ new_shell-IsBalanced client available

  -- However `Connect` ends, it closes nothing that is not open, and what it has opened and not closed is the client and
  -- the session that it returns, or nothing where it fails; the session that probes for the command is closed too.
  pub connect-IsBalanced : (timeout : ℤ) → IsBalanced [] (connect ssh req timeout)
  unfolding connect open_after
  connect-IsBalanced timeout = elim (Result-cases (check_key ssh req)) [
    | inr (e, fails) ↦ rw (connect, fails) refl
    | inl (signer, key) ↦ elim (Result-cases (dial_client ssh req timeout signer)) [
      | inr (e, fails) ↦ rw (connect, key, fails) refl
      | inl (client, dialled) ↦ rw (connect, key, dialled) (open_shell-IsBalanced client)
    ]
  ]
