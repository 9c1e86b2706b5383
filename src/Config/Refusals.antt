-- ===== src/Config/Refusals.antt =====
-- When the tests of Validate refuse nothing.
use async_trace_doctor.Common.{
  ◌≡◌, refl, ◌≢◌, ◌↔◌, String, Bool, true, false, not, ◌||◌, none, some, List, [], ◌∷◌, All, ◌==◌,
  Bool-cases, inl, inr, eq_iff, arith,
}
use async_trace_doctor.Config.Defs.{contains, ConfigError, Validation, refuse, and_then}

pub refuse-none :
    (b : Bool) (e : ConfigError) (rest : Validation)
    → (refuse b e rest ≡ none) ↔ ((b ≡ false) × (rest ≡ none))
refuse-none true e rest = (λ h. absurd (cc h), λ h. absurd (cc h.0))
refuse-none false e rest = (λ h. (refl, h), λ h. h.1)

pub and_then-none : (a b : Validation) → (and_then a b ≡ none) ↔ ((a ≡ none) × (b ≡ none))
and_then-none none b = (λ h. (refl, h), λ h. h.1)
and_then-none (some e) b = (λ h. absurd (cc h), λ h. absurd (cc h.0))

pub contains-false : (xs : List String) (x : String) → (contains xs x ≡ false) ↔ All (λ v. v ≢ x) xs
unfolding contains
contains-false [] x = (λ h. tt, λ h. refl)
contains-false (v ∷ xs) x =
    let (f, g) = contains-false xs x in
    elim (Bool-cases (v == x)) [
      | inl same ↦ (λ h. absurd (cc (rw same at h)), λ h. absurd (h.0 ((eq_iff v x).0 same)))
      | inr other ↦
          (λ h. (λ p. cc (other, (eq_iff v x).1 p), f (rw other at h)), λ h. rw other (g h.1))
    ]

pub both_false : (a b : Bool) → ((a || b) ≡ false) ↔ ((a ≡ false) × (b ≡ false))
both_false true b = (λ h. absurd (cc h), λ h. absurd (cc h.0))
both_false false b = (λ h. (refl, h), λ h. h.1)

pub nonempty : (s : String) → ((s == "") ≡ false) ↔ (s ≢ "")
nonempty s = (λ h p. cc (h, (eq_iff s "").1 p), λ n. ground (arith, eq_iff s ""))

pub not-false : (b : Bool) → (not b ≡ false) ↔ (b ≡ true)
not-false true = (λ h. refl, λ h. refl)
not-false false = (λ h. absurd (cc h), λ h. absurd (cc h))
