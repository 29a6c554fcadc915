-- ===== src/Scanner/Quoted/Single/RoundTrip.antt =====
-- Reading back what `push_single_quoted` (src/emit_util.rs) writes.
use yamlrocks.Common.{
  ℕ, zero, suc, ◌<◌, Bool, true, false, not, Bool-cases, Option, none, some, [], ◌∷◌, ◌++◌,
  append_assoc, append-nil, Text, any, and_parts, or_parts, contains, length, length-append, ◌==◌,
  ==_iff, ◌≡◌, inl, inr, refl, sym, subst, ap, ◌∙◌, arith,
}
use yamlrocks.Common.Int.{ℤ}
use yamlrocks.Scanner.CharClass.{is_break}
use yamlrocks.Scanner.Reader.{
  Span, past, past_text, past_text-append, first_char, single_quoted_stop, take_run,
}
use yamlrocks.Scanner.Outcome.{ok, iterate, next}
use yamlrocks.Scanner.Quoted.{texted, buffer_of}
use yamlrocks.Scanner.Quoted.Single.{State, step, scan_single_quoted}
use yamlrocks.Emit.Scalar.{single_quoted_body, push_single_quoted, single_capable}

abbrev state : Option Text → Text → Text → Span → State
state buffer run rest s = record {
  buffer = buffer;
  run = run;
  reader = record { rest = rest; pos = s };
}

step-absorb :
    (parent : ℤ) (start : Span) (buffer : Option Text) (run : Text) (c : ℕ) (cs : Text) (s : Span)
    → single_quoted_stop c ≡ false
    → step parent start (state buffer run (c ∷ cs) s)
      ≡ step parent start (state buffer (run ++ c ∷ []) cs (past c s))
unfolding step take_run
step-absorb parent start buffer run c cs s h =
    rw (h, append_assoc run (c ∷ []) (take_run single_quoted_stop cs (past c s)).0) refl

any-cons :
    (p : ℕ → Bool) (c : ℕ) (cs : Text) → any p (c ∷ cs) ≡ false → (p c ≡ false) × (any p cs ≡ false)
any-cons p c cs h = or_parts (p c) (any p cs) h

unquoted_stop : (c : ℕ) → (c == b'\'') ≡ false → is_break c ≡ false → single_quoted_stop c ≡ false
unfolding is_break
unquoted_stop c q b = ground arith

any-is_break :
    (value : Text)
    → contains value b'\n' ≡ false
    → contains value b'\r' ≡ false
    → any is_break value ≡ false
unfolding is_break
any-is_break [] n r = refl
any-is_break (c ∷ cs) n r =
    let (n1, n2) = or_parts (c == b'\n') (contains cs b'\n') n in
    let (r1, r2) = or_parts (c == b'\r') (contains cs b'\r') r in
    rw (n1, r1) (any-is_break cs n2 r2)

not-false : (b : Bool) → not b ≡ true → b ≡ false
not-false true h = cc
not-false false h = refl

single_capable-any : (value : Text) → single_capable value ≡ true → any is_break value ≡ false
unfolding single_capable
single_capable-any value h =
    let (n, h') = and_parts (not (contains value b'\n')) _ h in
    let (r, _) = and_parts (not (contains value b'\r')) _ h' in
    any-is_break value (not-false (contains value b'\n') n) (not-false (contains value b'\r') r)

module _ (parent : ℤ) (start : Span) (rest : Text)
    (closed : (first_char rest == b'\'') ≡ false) where
  loop-close :
      (f : ℕ) (buffer : Option Text) (run : Text) (s : Span)
      → texted (iterate (step parent start) (suc f) (state buffer run (b'\'' ∷ rest) s))
        ≡ ok (buffer_of buffer ++ run, record { rest = rest; pos = past b'\'' s })
  unfolding step take_run
  loop-close f none run s = rw (closed, append-nil run) refl
  loop-close f (some buf) run s = rw (closed, append-nil run) refl

  loop-quote :
      (f : ℕ) (buffer : Option Text) (run cs : Text) (s : Span)
      → iterate (step parent start) (suc f) (state buffer run (b'\'' ∷ b'\'' ∷ cs) s)
        ≡ iterate (step parent start) f (
            state
              (some ((buffer_of buffer ++ run) ++ b'\'' ∷ []))
              []
              cs
              (past b'\'' (past b'\'' s)))
  unfolding step take_run
  loop-quote f none run cs s = rw (append-nil run) refl
  loop-quote f (some buf) run cs s = rw (append-nil run) refl

  -- The loop reads a body and the closing quote behind it.
  abbrev Reads : Text → ℕ → Option Text → Text → Span → Type 0
  Reads v f buffer run s =
      texted
        (iterate (step parent start) f (state buffer run (single_quoted_body v ++ b'\'' ∷ rest) s))
      ≡ ok (
        (buffer_of buffer ++ run) ++ v,
        record { rest = rest; pos = past b'\'' (past_text (single_quoted_body v) s) },
      )

  abbrev ReadsAll : Text → Type 0
  ReadsAll v =
      (f : ℕ) (buffer : Option Text) (run : Text) (s : Span)
      → length (single_quoted_body v) < f
      → Reads v f buffer run s

  Quote-Reads : (v : Text) → ReadsAll v → ReadsAll (b'\'' ∷ v)
  unfolding single_quoted_body
  Quote-Reads v ih zero buffer run s h = absurd (omega arith)
  Quote-Reads v ih (suc f) buffer run s h =
      ap texted (loop-quote f buffer run (single_quoted_body v ++ b'\'' ∷ rest) s)
      ∙ ih f (some ((buffer_of buffer ++ run) ++ b'\'' ∷ [])) [] (past b'\'' (past b'\'' s))
          (omega arith)
      ∙ rw
          (
            append-nil ((buffer_of buffer ++ run) ++ b'\'' ∷ []),
            append_assoc (buffer_of buffer ++ run) (b'\'' ∷ []) v,
          )
          refl

  Plain-Reads :
      (c : ℕ) (v : Text) → (c == b'\'') ≡ false → is_break c ≡ false → ReadsAll v → ReadsAll (c ∷ v)
  unfolding single_quoted_body
  Plain-Reads c v q b ih zero buffer run s h = absurd (omega arith)
  Plain-Reads c v q b ih (suc f) buffer run s h = rw (q) (
      ap (λ st. texted (next (iterate (step parent start) f) st))
        (step-absorb parent start buffer run c (single_quoted_body v ++ b'\'' ∷ rest) s
          (unquoted_stop c q b))
      ∙ ih (suc f) buffer (run ++ c ∷ []) (past c s)
          (let l : length (c ∷ single_quoted_body v) < suc f = rw (q) at h in omega arith)
      ∙ rw
          (
            ← append_assoc (buffer_of buffer) run (c ∷ []),
            append_assoc (buffer_of buffer ++ run) (c ∷ []) v,
          )
          refl)

  loop-body : (v : Text) → any is_break v ≡ false → ReadsAll v
  unfolding single_quoted_body
  loop-body [] n zero buffer run s h = absurd (omega arith)
  loop-body [] n (suc f) buffer run s h =
      loop-close f buffer run s ∙ rw (append-nil (buffer_of buffer ++ run)) refl
  loop-body (c ∷ v) n f buffer run s h =
      let (b, n') = any-cons is_break c v n in
      elim (Bool-cases (c == b'\'')) [
        | inl q ↦
            subst (λ c. ReadsAll (c ∷ v)) (sym ((==_iff c b'\'').0 q))
              (Quote-Reads v (loop-body v n')) f buffer run s h
        | inr q ↦ Plain-Reads c v q b (loop-body v n') f buffer run s h
      ]

-- Scanning what `push_single_quoted` writes for a text that single quotes can carry gives back that
-- text, and stops right behind the closing quote, unless another quote follows.
pub scan_single_quoted-push_single_quoted :
    (parent : ℤ) (value rest : Text) (s : Span)
    → single_capable value ≡ true
    → (first_char rest == b'\'') ≡ false
    → texted
        (scan_single_quoted parent (record { rest = push_single_quoted [] value ++ rest; pos = s }))
      ≡ ok (value, record { rest = rest; pos = past_text (push_single_quoted [] value) s })
unfolding scan_single_quoted push_single_quoted
scan_single_quoted-push_single_quoted parent value rest s h closed =
    let fuel : ℕ = suc (suc (length (single_quoted_body value ++ b'\'' ∷ rest))) in
    let l : length (single_quoted_body value) < fuel =
      omega (arith, length-append (single_quoted_body value) (b'\'' ∷ rest)) in
    rw
      (
        append_assoc (single_quoted_body value) (b'\'' ∷ []) rest,
        past_text-append (single_quoted_body value) (b'\'' ∷ []) (past b'\'' s),
      )
      (loop-body parent s rest closed value (single_capable-any value h) fuel none [] (past b'\'' s)
        l)
