-- ===== src/Config/Validate/Laws.antt =====
-- What the checks of `Validate` establish, each on its own part of the configuration.
use go_webssh.Base.{
  ◌≡◌, refl, sym, ◌≢◌, ◌↔◌, inl, inr, true, false, List, [], ◌∷◌, ok, arith, any, All, Bool-cases,
}
use go_webssh.Int.{ℤ, InRange, eq_ℤ, eq_of_parts}
use go_webssh.Config.Validate.{check_ports}

eq_ℤ-true : (a b : ℤ) → eq_ℤ a b ≡ true → a ≡ b
eq_ℤ-true a b h = ground (arith, eq_of_parts a b)

eq_ℤ-false : (a b : ℤ) → eq_ℤ a b ≡ false → a ≢ b
eq_ℤ-false a b h e = absurd (ground arith)

eq_ℤ_of_ne : (a b : ℤ) → a ≢ b → eq_ℤ a b ≡ false
eq_ℤ_of_ne a b n = elim (Bool-cases (eq_ℤ a b)) [ inl e ↦ absurd (n (eq_ℤ-true a b e)) | inr e ↦ e ]

-- The port differs from all of the list.
abbrev pub IsNew : ℤ → List ℤ → Type 0
IsNew port = All (λ q. port ≢ q)

abbrev pub AreDistinct : List ℤ → Type 0
AreDistinct [] = Unit
AreDistinct (port ∷ ports) = IsNew port ports × AreDistinct ports

any-eq_ℤ_iff : (port : ℤ) (ports : List ℤ) → (any (eq_ℤ port) ports ≡ false) ↔ IsNew port ports
unfolding any
any-eq_ℤ_iff port [] = (λ h. tt, λ h. refl)
any-eq_ℤ_iff port (q ∷ ports) =
    let (to, from) = any-eq_ℤ_iff port ports in
    (
      λ h. (eq_ℤ-false port q (ground arith), to (ground arith)),
      λ h. ground (arith, eq_ℤ_of_ne port q h.0, from h.1),
    )

-- Each port differs from those seen before it.
abbrev pub AreNew : List ℤ → List ℤ → Type 0
AreNew seen [] = Unit
AreNew seen (port ∷ ports) = IsNew port seen × AreNew seen ports

AreNew-cons :
    (seen : List ℤ) (port : ℤ) (ports : List ℤ)
    → AreNew (port ∷ seen) ports ↔ (IsNew port ports × AreNew seen ports)
AreNew-cons seen port [] = (λ h. (tt, tt), λ h. tt)
AreNew-cons seen port (q ∷ ports) =
    let (to, from) = AreNew-cons seen port ports in
    (
      λ h. let (apart, later) = to h.1 in ((λ e. h.0.0 (sym e), apart), (h.0.1, later)),
      λ h. ((λ e. h.0.0 (sym e), h.1.0), from (h.0.1, h.1.1)),
    )

pub check_ports_iff :
    (seen ports : List ℤ)
    → (check_ports seen ports ≡ ok tt)
      ↔ (All (InRange 1 65535) ports × AreDistinct ports × AreNew seen ports)
unfolding check_ports
check_ports_iff seen [] = (λ h. (tt, tt, tt), λ h. refl)
check_ports_iff seen (port ∷ ports) =
    let (to, from) = check_ports_iff (port ∷ seen) ports in
    let (split, join) = AreNew-cons seen port ports in
    let (apart, fresh) = any-eq_ℤ_iff port seen in
    (
      λ h.
          let (ranges, distinct, new) = to (ground arith) in
          let (ahead, others) = split new in
          ((ground arith, ranges), (ahead, distinct), (apart (ground arith), others)),
      λ (ranges, distinct, new).
          let later = from (ranges.1, distinct.1, join (distinct.0, new.1)) in
          let unseen = fresh new.0 in ground (arith, later, unseen),
    )
