-- ===== src/Scanner/Quoted/Double/RoundTrip.antt =====
-- Reading back what `push_double_quoted` (src/emit_util.rs) writes.
use yamlrocks.Common.{
  ℕ, zero, suc, ◌<◌, true, false, Bool-cases, Option, none, some, [], ◌∷◌, ◌++◌, append_assoc,
  append-nil, Text, length, length-append, leb, ◌≡◌, inl, inr, refl, ap, ◌∙◌, arith,
}
use yamlrocks.Common.Int.{ℤ}
use yamlrocks.Scanner.CharClass.{is_break}
use yamlrocks.Scanner.Reader.{Span, past, past_text, past_text-append, double_quoted_stop, take_run}
use yamlrocks.Scanner.Outcome.{ok, more, iterate, next}
use yamlrocks.Scanner.Quoted.{texted, buffer_of}
use yamlrocks.Scanner.Quoted.Double.{State, step, scan_double_quoted, push_dquoted_run}
use yamlrocks.Scanner.Quoted.Double.Escapes.{Plain, Escaped, Encodes, escape-Plain-or-Escaped}
use yamlrocks.Emit.Scalar.{double_quoted_body, push_double_quoted}

abbrev state : Option Text → ℕ → Text → Text → Span → State
state buffer nonblank_len run rest s = record {
  buffer = buffer;
  nonblank_len = nonblank_len;
  run = run;
  reader = record { rest = rest; pos = s };
}

-- A character that does not stop a run joins it.
step-absorb :
    (parent : ℤ) (start : Span) (buffer : Option Text) (n : ℕ) (run : Text) (c : ℕ) (cs : Text)
    (s : Span)
    → double_quoted_stop c ≡ false
    → step parent start (state buffer n run (c ∷ cs) s)
      ≡ step parent start (state buffer n (run ++ c ∷ []) cs (past c s))
unfolding step take_run
step-absorb parent start buffer n run c cs s h =
    rw (h, append_assoc run (c ∷ []) (take_run double_quoted_stop cs (past c s)).0) refl

stop-Plain : (c : ℕ) → Plain c → leb 0x80 c ≡ false → double_quoted_stop c ≡ false
unfolding is_break
stop-Plain c (e, h1, h2, h3) h = ground arith

stop-wide : (c : ℕ) → leb 0x80 c ≡ true → double_quoted_stop c ≡ true
stop-wide c h = ground arith

joined : (buf run : Text) (c : ℕ) (v : Text) → (buf ++ (run ++ c ∷ [])) ++ v ≡ (buf ++ run) ++ c ∷ v
joined buf run c v = rw (← append_assoc buf run (c ∷ []), append_assoc (buf ++ run) (c ∷ []) v) refl

module _ (parent : ℤ) (start : Span) (rest : Text) where
  loop-wide :
      (f : ℕ) (buffer : Option Text) (n : ℕ) (run : Text) (c : ℕ) (cs : Text) (s : Span)
      → Plain c
      → leb 0x80 c ≡ true
      → iterate (step parent start) (suc f) (state buffer n run (c ∷ cs) s)
        ≡ iterate (step parent start) f (state buffer n (run ++ c ∷ []) cs (past c s))
  unfolding step take_run
  loop-wide f buffer n run c cs s (e, h1, h2, h3) h =
      ap (next (iterate (step parent start) f))
        {x = step parent start (state buffer n run (c ∷ cs) s)}
        {y = more (state buffer n (run ++ c ∷ []) cs (past c s))}
        (rw (stop-wide c h, append-nil run, h1, h2, h3) refl)

  loop-escape :
      (f : ℕ) (buffer : Option Text) (n : ℕ) (run : Text) (c : ℕ) (tail cs : Text) (s : Span)
      → Encodes tail c
      → iterate (step parent start) (suc f) (state buffer n run (b'\\' ∷ (tail ++ cs)) s)
        ≡ iterate (step parent start) f (
            state
              (some ((buffer_of buffer ++ run) ++ c ∷ []))
              (length ((buffer_of buffer ++ run) ++ c ∷ []))
              []
              cs
              (past_text (b'\\' ∷ tail) s))
  unfolding step take_run push_dquoted_run
  loop-escape f buffer n run c tail cs s e =
      rw (append-nil run, e start (buffer_of buffer ++ run) cs (past b'\\' s)) refl

  loop-close :
      (f : ℕ) (buffer : Option Text) (n : ℕ) (run : Text) (s : Span)
      → texted (iterate (step parent start) (suc f) (state buffer n run (b'"' ∷ rest) s))
        ≡ ok (buffer_of buffer ++ run, record { rest = rest; pos = past b'"' s })
  unfolding step take_run push_dquoted_run
  loop-close f none n run s = rw (append-nil run) refl
  loop-close f (some buf) n run s = rw (append-nil run) refl

  -- The loop reads a body and the closing quote behind it.
  abbrev Reads : Text → ℕ → Option Text → ℕ → Text → Span → Type 0
  Reads v f buffer n run s =
      texted
        (iterate (step parent start) f (state buffer n run (double_quoted_body v ++ b'"' ∷ rest) s))
      ≡ ok (
        (buffer_of buffer ++ run) ++ v,
        record { rest = rest; pos = past b'"' (past_text (double_quoted_body v) s) },
      )

  abbrev ReadsAll : Text → Type 0
  ReadsAll v =
      (f : ℕ) (buffer : Option Text) (n : ℕ) (run : Text) (s : Span)
      → length (double_quoted_body v) < f
      → Reads v f buffer n run s

  Plain-Reads : (c : ℕ) (v : Text) → Plain c → ReadsAll v → ReadsAll (c ∷ v)
  unfolding double_quoted_body
  Plain-Reads c v p ih zero buffer n run s h = absurd (omega arith)
  Plain-Reads c v (e, p1, p2, p3) ih (suc f) buffer n run s h =
      let l : length (double_quoted_body v) < f = omega (arith, rw (e) at h) in
      elim (Bool-cases (leb 0x80 c)) [
        | inl w ↦ rw (e) (
            ap texted
              (loop-wide f buffer n run c (double_quoted_body v ++ b'"' ∷ rest) s (e, p1, p2, p3) w)
            ∙ ih f buffer n (run ++ c ∷ []) (past c s) l
            ∙ rw (joined (buffer_of buffer) run c v) refl)
        | inr w ↦ rw (e) (
            ap (λ st. texted (next (iterate (step parent start) f) st))
              (step-absorb parent start buffer n run c (double_quoted_body v ++ b'"' ∷ rest) s
                (stop-Plain c (e, p1, p2, p3) w))
            ∙ ih (suc f) buffer n (run ++ c ∷ []) (past c s) (omega arith)
            ∙ rw (joined (buffer_of buffer) run c v) refl)
      ]

  Escaped-Reads : (c : ℕ) (v : Text) → Escaped c → ReadsAll v → ReadsAll (c ∷ v)
  unfolding double_quoted_body
  Escaped-Reads c v p ih zero buffer n run s h = absurd (omega arith)
  Escaped-Reads c v (tail, e, k) ih (suc f) buffer n run s h =
      let l : length (double_quoted_body v) < f =
        omega (arith, length-append tail (double_quoted_body v), rw (e) at h) in
      rw
        (
          e,
          append_assoc tail (double_quoted_body v) (b'"' ∷ rest),
          past_text-append tail (double_quoted_body v) (past b'\\' s),
        )
        (ap texted (loop-escape f buffer n run c tail (double_quoted_body v ++ b'"' ∷ rest) s k)
          ∙ ih f (some ((buffer_of buffer ++ run) ++ c ∷ []))
              (length ((buffer_of buffer ++ run) ++ c ∷ [])) [] (past_text tail (past b'\\' s)) l
          ∙ rw
              (
                append-nil ((buffer_of buffer ++ run) ++ c ∷ []),
                append_assoc (buffer_of buffer ++ run) (c ∷ []) v,
              )
              refl)

  loop-body : (v : Text) → ReadsAll v
  unfolding double_quoted_body
  loop-body [] zero buffer n run s h = absurd (omega arith)
  loop-body [] (suc f) buffer n run s h =
      loop-close f buffer n run s ∙ rw (append-nil (buffer_of buffer ++ run)) refl
  loop-body (c ∷ v) f buffer n run s h = elim (escape-Plain-or-Escaped c) [
    | inl p ↦ Plain-Reads c v p (loop-body v) f buffer n run s h
    | inr p ↦ Escaped-Reads c v p (loop-body v) f buffer n run s h
  ]

-- Scanning what `push_double_quoted` writes gives back the text that it was given, whatever
-- characters are in it and whatever follows, and stops right behind the closing quote.
pub scan_double_quoted-push_double_quoted :
    (parent : ℤ) (value rest : Text) (s : Span)
    → texted
        (scan_double_quoted parent (record { rest = push_double_quoted [] value ++ rest; pos = s }))
      ≡ ok (value, record { rest = rest; pos = past_text (push_double_quoted [] value) s })
unfolding scan_double_quoted push_double_quoted double_quoted_body
scan_double_quoted-push_double_quoted parent value rest s =
    let fuel : ℕ = suc (suc (length (double_quoted_body value ++ b'"' ∷ rest))) in
    let l : length (double_quoted_body value) < fuel =
      omega (arith, length-append (double_quoted_body value) (b'"' ∷ rest)) in
    rw
      (
        append_assoc (double_quoted_body value) (b'"' ∷ []) rest,
        past_text-append (double_quoted_body value) (b'"' ∷ []) (past b'"' s),
      )
      (loop-body parent s rest value fuel none 0 [] (past b'"' s) l)
