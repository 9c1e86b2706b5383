-- ===== src/Report/Escapes.antt =====
-- What trim and escapeMarkdownCell make of a text.
use Prim.Native.Char.{Char, code}
use async_trace_doctor.Common.{
  ℕ, ◌≡◌, refl, String, Bool, true, false, not, ◌&&◌, ◌||◌, nat_eq, &&-left, &&-right, &&-both,
  Bool-cases, inl, inr, arith,
}
use async_trace_doctor.Report.Cells.{prepend, replace_char, replace_crlf, escape_markdown_cell}

-- No character of a text has a code.
unfoldable pub lacks : ℕ → String → Bool
lacks n String.[] = true
lacks n (String.◌∷◌ c s) = not (nat_eq (code c) n) && lacks n s

-- Every pipe of a text has a backslash in front; `b` says that one is in front of the text.
unfoldable pub is_escaped : Bool → String → Bool
is_escaped b String.[] = true
is_escaped b (String.◌∷◌ c s) =
    (not (nat_eq (code c) b'|') || b) && is_escaped (nat_eq (code c) b'\\') s

negated : (a : Bool) → a ≡ false → not a ≡ true
negated true h = absurd (cc h)
negated false h = refl

no_pipe : (a b : Bool) → a ≡ false → (not a || b) ≡ true
no_pipe true b h = absurd (cc h)
no_pipe false b h = refl

lacks-prepend :
    (n : ℕ) (s t : String) → lacks n s ≡ true → lacks n t ≡ true → lacks n (prepend s t) ≡ true
unfolding lacks prepend
lacks-prepend n String.[] t h k = k
lacks-prepend n (String.◌∷◌ c s) t h k =
    &&-both _ _ (&&-left _ _ h) (lacks-prepend n s t (&&-right _ _ h) k)

lacks-replaced :
    (n : ℕ) (new s : String) → lacks n new ≡ true → lacks n (replace_char n new s) ≡ true
unfolding lacks replace_char
lacks-replaced n new String.[] h = refl
lacks-replaced n new (String.◌∷◌ c s) h = elim (Bool-cases (nat_eq (code c) n)) [
  | inl same ↦ rw (same, replace_char) (lacks-prepend n new _ h (lacks-replaced n new s h))
  | inr other ↦ rw (other, replace_char) (&&-both _ _ (negated _ other) (lacks-replaced n new s h))
]

lacks-replace_char :
    (n old : ℕ) (new s : String)
    → lacks n new ≡ true
    → lacks n s ≡ true
    → lacks n (replace_char old new s) ≡ true
unfolding lacks replace_char
lacks-replace_char n old new String.[] h k = refl
lacks-replace_char n old new (String.◌∷◌ c s) h k =
    let rest = lacks-replace_char n old new s h (&&-right _ _ k) in
    elim (Bool-cases (nat_eq (code c) old)) [
      | inl same ↦ rw (same, replace_char) (lacks-prepend n new _ h rest)
      | inr other ↦ rw (other, replace_char) (&&-both _ _ (&&-left _ _ k) rest)
    ]

-- A text without a backslash at its end and without a pipe may stand in front.
escaped_pipes : (b : Bool) (s : String) → is_escaped b (replace_char b'|' "\\|" s) ≡ true
unfolding is_escaped replace_char prepend
escaped_pipes b String.[] = refl
escaped_pipes b (String.◌∷◌ c s) = elim (Bool-cases (nat_eq (code c) b'|')) [
  | inl pipe ↦ rw (pipe, replace_char) (escaped_pipes false s)
  | inr other ↦
      rw (other, replace_char)
        (&&-both _ _ (no_pipe _ b other) (escaped_pipes (nat_eq (code c) b'\\') s))
]

-- After a character that is no backslash.
escaped_after :
    (c : Char) (n : ℕ) (s : String)
    → nat_eq (code c) n ≡ true
    → nat_eq n b'\\' ≡ false
    → is_escaped (nat_eq (code c) b'\\') s ≡ true
    → is_escaped false s ≡ true
escaped_after c n s e k h =
    let f : nat_eq (code c) b'\\' ≡ false = apart (code c) n e k in rw f at h
  where
    apart : (m n : ℕ) → nat_eq m n ≡ true → nat_eq n b'\\' ≡ false → nat_eq m b'\\' ≡ false
    apart m n p q = ground arith

escaped-replace_char :
    (old : ℕ) (b : Bool) (s : String)
    → nat_eq old b'\\' ≡ false
    → is_escaped b s ≡ true
    → is_escaped b (replace_char old "<br/>" s) ≡ true
unfolding is_escaped replace_char prepend
escaped-replace_char old b String.[] n h = refl
escaped-replace_char old b (String.◌∷◌ c s) n h = elim (Bool-cases (nat_eq (code c) old)) [
  | inl same ↦
      rw (same, replace_char)
        (escaped-replace_char old false s n (escaped_after c old s same n (&&-right _ _ h)))
  | inr other ↦
      rw (other, replace_char)
        (&&-both _ _ (&&-left _ _ h)
          (escaped-replace_char old (nat_eq (code c) b'\\') s n (&&-right _ _ h)))
]

escaped-replace_crlf :
    (b : Bool) (s : String) → is_escaped b s ≡ true → is_escaped b (replace_crlf "<br/>" s) ≡ true
unfolding is_escaped replace_crlf prepend
escaped-replace_crlf b String.[] h = refl
escaped-replace_crlf b (String.◌∷◌ c String.[]) h = h
escaped-replace_crlf b (String.◌∷◌ c (String.◌∷◌ d s)) h =
    elim (Bool-cases (nat_eq (code c) 13 && nat_eq (code d) 10)) [
      | inl broken ↦
          rw (broken, replace_crlf)
            (escaped-replace_crlf false s
              (escaped_after d 10 s (&&-right _ _ broken) refl (&&-right _ _ (&&-right _ _ h))))
      | inr other ↦
          rw (other, replace_crlf)
            (&&-both _ _ (&&-left _ _ h)
              (escaped-replace_crlf (nat_eq (code c) b'\\') (String.◌∷◌ d s) (&&-right _ _ h)))
    ]

-- A cell of the Markdown table holds no line feed and no carriage return, and every pipe in it has a
-- backslash in front, whatever the text was.
pub escape_markdown_cell_lem :
    (s : String)
    → (lacks 10 (escape_markdown_cell s) ≡ true)
      × (lacks 13 (escape_markdown_cell s) ≡ true)
      × (is_escaped false (escape_markdown_cell s) ≡ true)
unfolding escape_markdown_cell lacks
escape_markdown_cell_lem s =
    let piped : String = replace_char b'|' "\\|" s in
    let joined : String = replace_crlf "<br/>" piped in
    (
      lacks-replace_char 10 13 "<br/>" (replace_char 10 "<br/>" joined) refl
          (lacks-replaced 10 "<br/>" joined refl),
      lacks-replaced 13 "<br/>" (replace_char 10 "<br/>" joined) refl,
      escaped-replace_char 13 false (replace_char 10 "<br/>" joined) refl (
          escaped-replace_char 10 false joined refl
            (escaped-replace_crlf false piped (escaped_pipes false s))),
    )
