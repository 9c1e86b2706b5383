-- ===== src/Service/Inflated.antt =====
-- What decompressContext answers.
use mathlib.Core.List.{append_assoc, append-nil}
use async_trace_doctor.Common.{
  ℕ, ◌+◌, ◌*◌, ◌≤◌, ◌≡◌, refl, sym, ap, ◌∙◌, subst, ◌↔◌, Bool, true, false, not, ◌&&◌, ◌||◌, Option,
  none, some, List, [], ◌∷◌, ◌++◌, length, length-append, ltb, if◌then◌else◌, ◌==◌, String,
  Bool-cases, inl, inr, arith, ◌⊎◌,
}
use async_trace_doctor.Common.Int.{pos}
use async_trace_doctor.Common.Texts.{equal_fold}
use async_trace_doctor.Service.Decompress.{
  Rounds, canceled, timed_out, last, failed, more, DecodeError, too_large, suspicious_ratio,
  read_failed, unsupported_encoding, invalid_header, Decoded, ok, err, exceeds, is_suspicious,
  take_chunk, inflate, decompress_context,
}

-- The bytes of all the rounds, and that the reader comes to the end of its input.
unfoldable pub bytes_of : Rounds → List ℕ
bytes_of canceled = []
bytes_of timed_out = []
bytes_of (last chunk) = chunk
bytes_of (failed chunk) = chunk
bytes_of (more chunk rest) = chunk ++ bytes_of rest

unfoldable pub finishes : Rounds → Bool
finishes canceled = false
finishes timed_out = false
finishes (last chunk) = true
finishes (failed chunk) = false
finishes (more chunk rest) = finishes rest

-- The limits on the number of bytes, of a request of `body` and for a limit `m`.
abbrev pub IsWithin : List ℕ → ℕ → ℕ → Type 0
IsWithin body m n = (n ≤ m) × ((0 ≡ length body) ⊎ (n ≤ length body * 100))

module _ (body : List ℕ) (m : ℕ) where
  tested-IsWithin :
      (n : ℕ) → exceeds n (pos m) ≡ false → is_suspicious body n ≡ false → IsWithin body m n
  tested-IsWithin n h k = (ground (arith, h), split (length body) k)
    where
      split : (l : ℕ) → (ltb 0 l && ltb (l * 100) n) ≡ false → (0 ≡ l) ⊎ (n ≤ l * 100)
      split l q = elim (Bool-cases (ltb 0 l)) [
        | inl some_ ↦ inr (ground (arith, some_, q))
        | inr none_ ↦ inl (ground (arith, none_))
      ]

  not_exceeding : (n : ℕ) → exceeds n (pos m) ≡ true → ¬ (IsWithin body m n)
  not_exceeding n h w = absurd (ground (arith, h, w.0))

  not_suspicious : (n : ℕ) → is_suspicious body n ≡ true → ¬ (IsWithin body m n)
  not_suspicious n h w = split (length body) h w.1
    where
      split : (l : ℕ) → (ltb 0 l && ltb (l * 100) n) ≡ true → (0 ≡ l) ⊎ (n ≤ l * 100) → ⊥
      split l q (inl z) = ground (arith, q, z)
      split l q (inr z) = ground (arith, q, z)

  -- A smaller number of bytes is within the limits too.
  fewer-IsWithin : (k n : ℕ) → k ≤ n → IsWithin body m n → IsWithin body m k
  fewer-IsWithin k n h (w, inl z) = (omega arith, inl z)
  fewer-IsWithin k n h (w, inr z) = (omega arith, inr (omega arith))

  -- A chunk is taken exactly when the bytes stay within the limits.
  Taken : List ℕ → List ℕ → Type 0
  Taken d c =
      ((take_chunk body (pos m) d c ≡ ok (d ++ c)) × IsWithin body m (length (d ++ c)))
      ⊎ ((e : DecodeError) × (take_chunk body (pos m) d c ≡ err e)
          × ¬ (IsWithin body m (length (d ++ c))))

  take_chunk-Taken : (d c : List ℕ) → IsWithin body m (length d) → Taken d c
  unfolding take_chunk Taken
  take_chunk-Taken d [] w =
      inl
        (ap ok (sym (append-nil d)), subst (λ l. IsWithin body m (length l)) (sym (append-nil d)) w)
  take_chunk-Taken d (x ∷ c) w =
      let n : length (d ++ x ∷ c) ≡ length d + length (x ∷ c) = length-append d (x ∷ c) in
      let pos_ : ltb 0 (length (x ∷ c)) ≡ true = ground arith in
      elim (Bool-cases (exceeds (length d + length (x ∷ c)) (pos m))) [
        | inl over ↦ inr (too_large, rw (pos_, over, take_chunk) refl, rw n (not_exceeding _ over))
        | inr fits ↦ elim (Bool-cases (is_suspicious body (length d + length (x ∷ c)))) [
          | inl odd ↦
              inr (
                suspicious_ratio,
                rw (pos_, fits, odd, take_chunk) refl,
                rw n (not_suspicious _ odd),
              )
          | inr fine ↦
              inl (rw (pos_, fits, fine, take_chunk) refl, rw n (tested-IsWithin _ fits fine))
        ]
      ]

  -- The loop answers the bytes of all rounds, if the reader finishes and they are within the limits.
  Inflates : List ℕ → Rounds → List ℕ → Type 0
  Inflates d rounds out =
      (finishes rounds ≡ true)
      × (out ≡ d ++ bytes_of rounds)
      × IsWithin body m (length (d ++ bytes_of rounds))

  inflate-Inflates :
      (rounds : Rounds) (d out : List ℕ)
      → IsWithin body m (length d)
      → (inflate body (pos m) d rounds ≡ ok out) ↔ Inflates d rounds out
  unfolding inflate Inflates finishes bytes_of Taken
  inflate-Inflates canceled d out w = (λ h. absurd (cc h), λ h. absurd (cc h.0))
  inflate-Inflates timed_out d out w = (λ h. absurd (cc h), λ h. absurd (cc h.0))
  inflate-Inflates (last c) d out w = elim (take_chunk-Taken d c w) [
    | inl (t, fits) ↦ (
      λ h.
          let e : ok (d ++ c) ≡ ok out = sym t ∙ h in
          let f : d ++ c ≡ out = cc e in (refl, sym f, fits),
      λ (_, e, _). t ∙ ap ok (sym e),
    )
    | inr (e, t, breaks) ↦ (λ h. absurd (cc (t, h)), λ (_, _, fits). absurd (breaks fits))
  ]
  inflate-Inflates (failed c) d out w =
      (λ h. absurd (never (take_chunk body (pos m) d c) h), λ h. absurd (cc h.0))
    where
      never : (t : Decoded) → elim t [ err e ↦ err e | ok d' ↦ err read_failed ] ≡ ok out → ⊥
      never (err e) h = cc h
      never (ok d') h = cc h
  inflate-Inflates (more c rest) d out w = elim (take_chunk-Taken d c w) [
    | inl (t, fits) ↦
        let (there, back) = inflate-Inflates rest (d ++ c) out fits in
        let a : (d ++ c) ++ bytes_of rest ≡ d ++ (c ++ bytes_of rest) =
          append_assoc d c (bytes_of rest) in
        (
          λ h.
              let (f, e, inside) = there (rw (t, inflate) at h) in
              (f, e ∙ a, subst (λ l. IsWithin body m (length l)) a inside),
          λ (f, e, inside).
              rw (t, inflate)
                (back (f, e ∙ sym a, subst (λ l. IsWithin body m (length l)) (sym a) inside)),
        )
    | inr (e, t, breaks) ↦ (
      λ h. absurd (cc (rw (t, inflate) at h)),
      λ (_, _, fits). absurd (breaks (fewer-IsWithin _ _ (shorter d c (bytes_of rest)) fits)),
    )
  ]
    where
      shorter : (d c b : List ℕ) → length (d ++ c) ≤ length (d ++ (c ++ b))
      shorter d c b = omega (arith, length-append d c, length-append d (c ++ b), length-append c b)

-- The request is taken as it is, and the request is unpacked.
abbrev pub is_plain : String → Bool
is_plain encoding = encoding == "" || equal_fold encoding "identity"

abbrev pub is_gzip : String → Bool
is_gzip encoding = equal_fold encoding "gzip"

-- What may be answered to a request: its body as it is; or all that the reader makes of it, up to its end
-- and within the limits.
abbrev pub IsContent : (List ℕ → Option Rounds) → List ℕ → String → ℕ → List ℕ → Type 0
IsContent open_reader body encoding m out =
    ((is_plain encoding ≡ true) × (out ≡ body))
    ⊎ ((is_plain encoding ≡ false)
        × (is_gzip encoding ≡ true)
        × (rounds : Rounds) × (open_reader body ≡ some rounds)
        × (finishes rounds ≡ true)
        × (out ≡ bytes_of rounds)
        × IsWithin body m (length (bytes_of rounds)))

-- The body of a request is decoded exactly in two cases: it is plain, and answered as it is; or it is
-- gzip, the reader comes to its end before the context and the deadline do, and the bytes, which are the
-- answer, are no more than the limit and no more than a hundred times those of the body.
pub decompress_context-IsContent :
    (open_reader : List ℕ → Option Rounds) (body : List ℕ) (encoding : String) (m : ℕ)
    (out : List ℕ)
    → (decompress_context open_reader body encoding (pos m) ≡ ok out)
      ↔ IsContent open_reader body encoding m out
unfolding decompress_context Inflates
decompress_context-IsContent open_reader body encoding m out =
    cases (is_plain encoding) (is_gzip encoding) (open_reader body)
  where
    cases :
        (plain gzip : Bool) (o : Option Rounds)
        → ((if plain then ok body else if not gzip then err unsupported_encoding else elim o [
          | none ↦ err invalid_header
          | some rounds ↦ inflate body (pos m) [] rounds
        ])
            ≡ ok out)
          ↔ (((plain ≡ true) × (out ≡ body))
              ⊎ ((plain ≡ false)
                  × (gzip ≡ true)
                  × (rounds : Rounds) × (o ≡ some rounds)
                  × (finishes rounds ≡ true)
                  × (out ≡ bytes_of rounds)
                  × IsWithin body m (length (bytes_of rounds))))
    cases true gzip o = (
      λ h. let e : body ≡ out = cc h in inl (refl, sym e),
      λ c. elim c [ inl (_, e) ↦ ap ok (sym e) | inr k ↦ absurd (cc k.0) ],
    )
    cases false false o = (
      λ h. absurd (cc h),
      λ c. elim c [ inl k ↦ absurd (cc k.0) | inr (_, g, _, _, _, _, _) ↦ absurd (cc g) ],
    )
    cases false true none = (
      λ h. absurd (cc h),
      λ c. elim c [ inl k ↦ absurd (cc k.0) | inr (_, _, _, e, _, _, _) ↦ absurd (cc e) ],
    )
    cases false true (some rounds) =
        let start : IsWithin body m 0 = (omega arith, inr (omega arith)) in
        let (there, back) = inflate-Inflates body m rounds [] out start in
        (
          λ h. let (f, b, inside) = there h in inr (refl, refl, rounds, refl, f, b, inside),
          λ c. elim c [
            | inl k ↦ absurd (cc k.0)
            | inr (_, _, rounds', e, f, b, inside) ↦
                let same : rounds ≡ rounds' = cc e in
                back (
                  subst
                    (λ x.
                      (finishes x ≡ true)
                      × (out ≡ bytes_of x)
                      × IsWithin body m (length (bytes_of x)))
                    (sym same) (f, b, inside))
          ],
        )
