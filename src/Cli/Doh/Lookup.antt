-- ===== src/Cli/Doh/Lookup.antt =====
-- A name is resolved if one of the endpoints answers in its share of the time.
use go_webssh.Base.{
  ℕ, suc, ◌+◌, ◌*◌, ◌-◌, ◌/◌, ◌≤◌, ◌<◌, ◌≡◌, refl, inl, inr, true, false, Option, List, [], ◌∷◌,
  ◌++◌, Result, ok, arith, Some, length, is_empty, Bool-cases, Option-cases, leb,
}
use native.Mathlib.Nat.{le-div_iff_mul-le, div-mul-le_self, mul-le-mul_right}
use go_webssh.Text.{Text, trim_space}
use go_webssh.Net.{Addr, Netip}
use go_webssh.Cli.Doh.{
  Endpoint, RecordType, type_a, type_aaaa, QueryError, read_reply, query, query_timeout, earlier,
  Timed, join, found, lookup_endpoint, budget, ask, errors_of, addresses_of, parse_literal,
  lookup_host, with_timeout,
}

rest_share :
    (quotient n part share left : ℕ)
    → part ≤ quotient
    → share * n ≤ quotient * n
    → quotient * suc n ≤ left
    → share * n + part ≤ left
rest_share quotient n part share left h k whole =
    let split : quotient * suc n ≡ quotient * n + quotient = omega arith in omega (arith, split)

-- What one endpoint takes of the time leaves a share for each of the others.
budget_bounds :
    (now deadline n share : ℕ)
    → share ≤ query_timeout
    → share * suc n ≤ deadline - now
    → (share ≤ budget now deadline (suc n))
      × (share * n + budget now deadline (suc n) ≤ deadline - now)
unfolding budget
budget_bounds now deadline n share small fair =
    let quotient = (deadline - now) / suc n in
    let fits : share ≤ quotient = (le-div_iff_mul-le (omega arith)).1 fair in
    let whole : quotient * suc n ≤ deadline - now = div-mul-le_self (deadline - now) (suc n) in
    let parts : share * n ≤ quotient * n = mul-le-mul_right n fits in
    let part = earlier quotient (2 * query_timeout) in
    (
      ground (arith, fits),
      rest_share quotient n part share (deadline - now) (ground arith) parts whole,
    )

shared :
    {A : Type 0} (P : A → Type 0) (share : ℕ) (xs : List A)
    → 0 < share
    → Some P xs
    → 0 < share * length xs
shared P share [] h k = absurd k
shared P share (x ∷ xs) h k =
    let split : share * suc (length xs) ≡ share * length xs + share = omega arith in
    omega (arith, split)

abbrev Between : ℕ → ℕ → ℕ → Type 0
Between now deadline after = (now ≤ after) × (after ≤ deadline)

join_ends :
    (now deadline : ℕ) (q4 q6 : Timed (Result QueryError (List Addr)))
    → Between now deadline (q4.1)
    → Between (q4.1) deadline (q6.1)
    → Between now deadline ((join deadline q4 q6).1)
unfolding join
join_ends now deadline (r4, after4) (r6, after6) h k = ground (arith, h, k)

module _ (net : Netip) where
  -- A query ends by its deadline.
  query_ends :
      (e : Endpoint) (rr : RecordType) (now deadline : ℕ)
      → now ≤ deadline
      → (now ≤ (query net e rr now deadline).1) × ((query net e rr now deadline).1 ≤ deadline)
  unfolding query
  query_ends e rr now deadline h = ground arith

  lookup_endpoint_ends :
      (e : Endpoint) (now deadline : ℕ)
      → now ≤ deadline
      → Between now deadline ((lookup_endpoint net e now deadline).1)
  unfolding lookup_endpoint
  lookup_endpoint_ends e now deadline h =
      let first = query_ends e type_a now deadline h in
      join_ends now deadline (query net e type_a now deadline)
        (query net e type_aaaa ((query net e type_a now deadline).1) deadline) first
        (query_ends e type_aaaa ((query net e type_a now deadline).1) deadline (first.1))

  -- An endpoint that answers the first query with addresses within the time.
  pub record IsPrompt (share : ℕ) (e : Endpoint) : Type 0 where
    pub usable : e.usable ≡ true
    pub quick : (now : ℕ) → (e.answer type_a now).0 < share
    pub known :
        (now : ℕ) → is_empty (found (read_reply net type_a ((e.answer type_a now).1))) ≡ false

  query_prompt :
      (e : Endpoint) (share now deadline : ℕ)
      → IsPrompt share e
      → share ≤ query_timeout
      → now + share ≤ deadline
      → query net e type_a now deadline
        ≡ (read_reply net type_a ((e.answer type_a now).1), now + (e.answer type_a now).0)
  unfolding query
  query_prompt e share now deadline prompt small fits =
      ground (arith, prompt.usable, prompt.quick now)

  lookup_endpoint_prompt :
      (e : Endpoint) (share now deadline : ℕ)
      → IsPrompt share e
      → share ≤ query_timeout
      → now + share ≤ deadline
      → (lookup_endpoint net e now deadline).0
        ≡ ok (found (read_reply net type_a ((e.answer type_a now).1)))
  unfolding lookup_endpoint join
  lookup_endpoint_prompt e share now deadline prompt small fits =
      rw
        (
          lookup_endpoint,
          query_prompt e share now deadline prompt small fits,
          join,
          prompt.known now,
        )
        refl

  -- The loop finds addresses, whatever the errors so far.
  ask_live :
      (share : ℕ) (endpoints : List Endpoint) (errs : List (List QueryError)) (now deadline : ℕ)
      → 0 < share
      → share ≤ query_timeout
      → now ≤ deadline
      → share * length endpoints ≤ deadline - now
      → Some (IsPrompt share) endpoints
      → (ips : List Addr) × (ask net endpoints errs now deadline ≡ ok ips) × (is_empty ips ≡ false)
  unfolding ask
  ask_live share [] errs now deadline pos_share small order fair h = absurd h
  ask_live share (e ∷ endpoints) errs now deadline pos_share small order fair (inl prompt) =
      let part = budget now deadline (suc (length endpoints)) in
      let (granted, spared) = budget_bounds now deadline (length endpoints) share small fair in
      let same =
        lookup_endpoint_prompt e share now (earlier deadline (now + part)) prompt small
          (in_time part granted spared) in
      (
        found (read_reply net type_a ((e.answer type_a now).1)),
        rw (same, prompt.known now) refl,
        prompt.known now,
      )
    where
      in_time :
          (part : ℕ)
          → share ≤ part
          → share * length endpoints + part ≤ deadline - now
          → now + share ≤ earlier deadline (now + part)
      in_time part granted spared = ground arith
  ask_live share (e ∷ endpoints) errs now deadline pos_share small order fair (inr h) =
      let part = budget now deadline (suc (length endpoints)) in
      let (granted, spared) = budget_bounds now deadline (length endpoints) share small fair in
      let r = lookup_endpoint net e now (earlier deadline (now + part)) in
      let ends = lookup_endpoint_ends e now (earlier deadline (now + part)) (not_past part) in
      let left : share * length endpoints ≤ deadline - r.1 = remains part (r.1) spared ends in
      let some_left : 0 < share * length endpoints =
        shared (IsPrompt share) share endpoints pos_share h in
      let rest =
        ask_live share endpoints (errs ++ errors_of (r.0) ∷ []) (r.1) deadline pos_share small
          (ground arith) left h in
      elim (Bool-cases (is_empty (addresses_of (r.0)))) [
        | inr filled ↦ (addresses_of (r.0), rw filled refl, filled)
        | inl nothing ↦ (rest.0, rw (nothing, early (r.1) left some_left) (rest.1), rest.2)
      ]
    where
      not_past : (part : ℕ) → now ≤ earlier deadline (now + part)
      not_past part = ground arith

      remains :
          (part after : ℕ)
          → share * length endpoints + part ≤ deadline - now
          → Between now (earlier deadline (now + part)) after
          → share * length endpoints ≤ deadline - after
      remains part after spared ends = ground arith

      early :
          (after : ℕ)
          → share * length endpoints ≤ deadline - after
          → 0 < share * length endpoints
          → leb deadline after ≡ false
      early after left some_left = ground arith

  -- A name is resolved if some endpoint answers the query for IPv4 addresses with addresses, in less than a share of
  -- at most ten seconds that fits as often into the time as there are endpoints, however the others behave.
  pub lookup_host_live :
      (share : ℕ) (endpoints : List Endpoint) (host : Text) (now : ℕ) (deadline : Option ℕ)
      → 0 < share
      → share ≤ query_timeout
      → is_empty (trim_space host) ≡ false
      → share * length endpoints ≤ with_timeout now deadline - now
      → Some (IsPrompt share) endpoints
      → (ips : List Addr) × (lookup_host net endpoints host now deadline ≡ ok ips)
        × (is_empty ips ≡ false)
  unfolding lookup_host
  lookup_host_live share endpoints host now deadline pos_share small given fair h =
      elim (Option-cases (parse_literal net (trim_space host))) [
        | inr (ip, literal) ↦ (ip ∷ [], rw (given, literal) refl, refl)
        | inl name ↦
            let room : 0 < share * length endpoints =
              shared (IsPrompt share) share endpoints pos_share h in
            let (ips, answers, filled) =
              ask_live share endpoints [] now (with_timeout now deadline) pos_share small
                (ground (arith, room)) fair h in
            (ips, rw (given, name, filled_list endpoints h) answers, filled)
      ]
    where
      filled_list : (es : List Endpoint) → Some (IsPrompt share) es → is_empty es ≡ false
      filled_list [] k = absurd k
      filled_list (e ∷ es) k = refl
