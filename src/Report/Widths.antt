-- ===== src/Report/Widths.antt =====
-- How long a column of the table is.
use async_trace_doctor.Common.{
  ℕ, zero, suc, ◌+◌, ◌-◌, ◌≡◌, refl, ap, ◌∙◌, String, true, false, leb, ltb, if◌then◌else◌,
  Bool-cases, inl, inr, arith,
}
use async_trace_doctor.Report.Cells.{prepend, runes, take_runes, trim}

runes-prepend : (s t : String) → runes (prepend s t) ≡ runes s + runes t
unfolding runes prepend
runes-prepend String.[] t = omega arith
runes-prepend (String.◌∷◌ c s) t = let rest = runes-prepend s t in omega arith

runes-take_runes : (n : ℕ) (s : String) → leb n (runes s) ≡ true → runes (take_runes n s) ≡ n
unfolding runes take_runes
runes-take_runes zero s h = refl
runes-take_runes (suc n) String.[] h = ground arith
runes-take_runes (suc n) (String.◌∷◌ c s) h =
    let rest = runes-take_runes n s (ground arith) in omega arith

take_runes-prepend :
    (n : ℕ) (s t : String)
    → leb n (runes s) ≡ true
    → take_runes n (prepend (take_runes n s) t) ≡ take_runes n s
unfolding runes take_runes prepend
take_runes-prepend zero s t h = refl
take_runes-prepend (suc n) String.[] t h = absurd (ground arith)
take_runes-prepend (suc n) (String.◌∷◌ c s) t h =
    ap (String.◌∷◌ c) (take_runes-prepend n s t (ground arith))

-- The part of trim that cuts.
cut :
    (s : String) (n : ℕ)
    → leb (runes s) n ≡ false
    → let kept : String =
        if leb n 0
        then ""
        else if ltb n 2
        then take_runes n s
        else prepend (take_runes (n - 1) s) "…" in
      (runes kept ≡ n) × (take_runes (n - 1) kept ≡ take_runes (n - 1) s)
unfolding runes take_runes
cut s zero longer = (refl, refl)
cut s (suc zero) longer = (runes-take_runes 1 s (ground arith), refl)
cut s (suc (suc n)) longer =
    let short : leb (suc n) (runes s) ≡ true = ground arith in
    let some_left : leb (suc (suc n)) 0 ≡ false = ground arith in
    let many_left : ltb (suc (suc n)) 2 ≡ false = ground arith in
    let before : suc (suc n) - 1 ≡ suc n = omega arith in
    let length : runes (take_runes (suc n) s) ≡ suc n = runes-take_runes (suc n) s short in
    rw (some_left, many_left, before)
      (
        runes-prepend (take_runes (suc n) s) "…" ∙ (omega arith),
        take_runes-prepend (suc n) s "…" short,
      )

-- trim leaves a text of at most `n` characters as long as it is and makes any longer one `n` characters
-- long, and either way all but the last of these `n` are those that the text begins with.
pub trim_lem :
    (s : String) (n : ℕ)
    → (runes (trim s n) ≡ (if leb (runes s) n then runes s else n))
      × (take_runes (n - 1) (trim s n) ≡ take_runes (n - 1) s)
unfolding trim runes take_runes
trim_lem s n = elim (Bool-cases (leb (runes s) n)) [
  | inl fits ↦ rw (fits, trim) (refl, refl)
  | inr longer ↦ rw (longer, trim) (cut s n longer)
]
