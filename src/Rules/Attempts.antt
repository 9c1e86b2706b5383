-- ===== src/Rules/Attempts.antt =====
-- What splitAttemptWindows makes of the attempts at one message.
use mathlib.Core.List.{append_assoc, append-nil}
use async_trace_doctor.Common.{
  ◌≡◌, refl, sym, ap, ◌∙◌, subst, true, false, List, [], ◌∷◌, ◌++◌, All, All-append, length,
  Bool-cases, inl, inr, arith,
}
use async_trace_doctor.Model.{Duration, Span}
use async_trace_doctor.Rules.Windows.{
  starts_group, attempt_loop, split_sorted, split_attempt_windows,
}

-- All the spans of the groups, in order.
abbrev pub flatten : List (List Span) → List Span
flatten [] = []
flatten (g ∷ groups) = g ++ flatten groups

flatten-append : (gs hs : List (List Span)) → flatten (gs ++ hs) ≡ flatten gs ++ flatten hs
flatten-append [] hs = refl
flatten-append (g ∷ gs) hs =
    ap (λ t. g ++ t) (flatten-append gs hs) ∙ sym (append_assoc g (flatten gs) (flatten hs))

-- `p` is the last span of `group`.
abbrev EndsIn : Span → List Span → Type 0
EndsIn p group = (init : List Span) × (group ≡ init ++ p ∷ [])

module _ (window : Duration) where
  -- No span of a group starts a group after the span before it.
  abbrev pub Together : List Span → Type 0
  Together [] = Unit
  Together (x ∷ []) = Unit
  Together (x ∷ y ∷ rest) = (starts_group window x y ≡ false) × Together (y ∷ rest)

  -- A group's last span, and the next group's first, which starts a group after it.
  abbrev pub Apart : List Span → List Span → Type 0
  Apart g h =
      (p : Span) × (s : Span) × (rest : List Span) × EndsIn p g
      × (h ≡ s ∷ rest)
      × (starts_group window p s ≡ true)

  abbrev pub AllApart : List (List Span) → Type 0
  AllApart [] = Unit
  AllApart (g ∷ []) = Unit
  AllApart (g ∷ h ∷ rest) = Apart g h × AllApart (h ∷ rest)

  Together-snoc :
      (init : List Span) (p s : Span)
      → Together (init ++ p ∷ [])
      → starts_group window p s ≡ false
      → Together ((init ++ p ∷ []) ++ s ∷ [])
  Together-snoc [] p s h n = (n, tt)
  Together-snoc (x ∷ []) p s h n = (h.0, (n, tt))
  Together-snoc (x ∷ y ∷ init) p s h n = (h.0, Together-snoc (y ∷ init) p s h.1 n)

  AllApart-snoc :
      (gs : List (List Span)) (g h : List Span)
      → AllApart (gs ++ g ∷ [])
      → Apart g h
      → AllApart ((gs ++ g ∷ []) ++ h ∷ [])
  AllApart-snoc [] g h k a = (a, tt)
  AllApart-snoc (x ∷ []) g h k a = (k.0, (a, tt))
  AllApart-snoc (x ∷ y ∷ gs) g h k a = (k.0, AllApart-snoc (y ∷ gs) g h k.1 a)

  Apart-grow : (g h : List Span) (s : Span) → Apart g h → Apart g (h ++ s ∷ [])
  Apart-grow g h s (p, x, rest, ends, e, starts) =
      (p, x, rest ++ s ∷ [], ends, ap (λ t. t ++ s ∷ []) e, starts)

  AllApart-grow :
      (gs : List (List Span)) (g : List Span) (s : Span)
      → AllApart (gs ++ g ∷ [])
      → AllApart (gs ++ (g ++ s ∷ []) ∷ [])
  AllApart-grow [] g s k = tt
  AllApart-grow (x ∷ []) g s k = (Apart-grow x g s k.0, tt)
  AllApart-grow (x ∷ y ∷ gs) g s k = (k.0, AllApart-grow (y ∷ gs) g s k.1)

  -- What the groups of some spans must be: in order and complete, never split within a group and
  -- always split between two.
  pub record AreAttempts (spans : List Span) (groups : List (List Span)) : Type 0 where
    pub complete : flatten groups ≡ spans
    pub together : All Together groups
    pub apart : AllApart groups

  attempt_loop-AreAttempts :
      (groups : List (List Span)) (group : List Span) (previous : Span) (rest : List Span)
      → EndsIn previous group
      → All Together groups
      → Together group
      → AllApart (groups ++ group ∷ [])
      → AreAttempts
          (flatten groups ++ (group ++ rest))
          (attempt_loop window groups group previous rest)
  unfolding attempt_loop
  attempt_loop-AreAttempts groups group previous [] ends old new apart = record {
    complete = flatten-append groups (group ∷ []);
    together = All-append Together groups (group ∷ []) old (new, tt);
    apart = apart;
  }
  attempt_loop-AreAttempts groups group previous (span ∷ rest) (init, ends) old new apart =
      elim (Bool-cases (starts_group window previous span)) [
        | inl starts ↦
            rw (starts, attempt_loop)
              (subst
                (λ all.
                  AreAttempts all
                    (attempt_loop window (groups ++ group ∷ []) (span ∷ []) span rest))
                opened
                (attempt_loop-AreAttempts (groups ++ group ∷ []) (span ∷ []) span rest ([], refl)
                  (All-append Together groups (group ∷ []) old (new, tt)) tt
                  (AllApart-snoc groups group (span ∷ []) apart
                    (previous, span, [], (init, ends), refl, starts))))
        | inr stays ↦
            rw (stays, attempt_loop)
              (subst
                (λ all. AreAttempts all (attempt_loop window groups (group ++ span ∷ []) span rest))
                grown
                (attempt_loop-AreAttempts groups (group ++ span ∷ []) span rest (group, refl) old
                  (subst (λ g. Together (g ++ span ∷ [])) (sym ends)
                    (Together-snoc init previous span (subst Together ends new) stays))
                  (AllApart-grow groups group span apart)))
      ]
    where
      grown :
          flatten groups ++ ((group ++ span ∷ []) ++ rest)
          ≡ flatten groups ++ (group ++ span ∷ rest)
      grown = ap (λ t. flatten groups ++ t) (append_assoc group (span ∷ []) rest)

      opened :
          flatten (groups ++ group ∷ []) ++ (span ∷ rest) ≡ flatten groups ++ (group ++ span ∷ rest)
      opened =
          ap (λ t. t ++ span ∷ rest)
            (flatten-append groups (group ∷ []) ∙ ap (λ t. flatten groups ++ t) (append-nil group))
          ∙ append_assoc (flatten groups) group (span ∷ rest)

  -- The groups are the sorted attempts in their order, none left out: within a group no attempt starts
  -- more than the window after the one before it, where both times are set, and the first of each
  -- further group does. The sorting by start is any that keeps the number of spans.
  pub split_attempt_windows-AreAttempts :
      (sort : List Span → List Span)
      → ((xs : List Span) → length (sort xs) ≡ length xs)
      → (spans : List Span) → AreAttempts (sort spans) (split_attempt_windows sort spans window)
  unfolding split_attempt_windows split_sorted
  split_attempt_windows-AreAttempts sort keeps [] =
      subst (λ xs. AreAttempts xs []) (sym (empty (sort []) (keeps [])))
        (record { complete = refl; together = tt; apart = tt })
    where
      empty : (xs : List Span) → length xs ≡ 0 → xs ≡ []
      empty [] h = refl
      empty (x ∷ xs) h = absurd (omega arith)
  split_attempt_windows-AreAttempts sort keeps (s ∷ spans) = go (sort (s ∷ spans))
    where
      go : (xs : List Span) → AreAttempts xs (split_sorted window xs)
      go [] = record { complete = refl; together = tt; apart = tt }
      go (x ∷ xs) = attempt_loop-AreAttempts [] (x ∷ []) x xs ([], refl) tt tt tt
