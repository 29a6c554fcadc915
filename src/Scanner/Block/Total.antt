-- ===== src/Scanner/Block/Total.antt =====
-- The loops of `scan_block` end.
use yamlrocks.Common.{
  ℕ, suc, ◌+◌, ◌≤◌, Bool, Bool-cases, Option, none, some, length, ltb, if◌then◌else◌, inl, inr,
  arith,
}
use yamlrocks.Common.Int.{ℤ}
use yamlrocks.Scanner.CharClass.{is_break}
use yamlrocks.Scanner.Reader.{Span, Reader, peek, advance, advance_line}
use yamlrocks.Scanner.Source.{Source}
use yamlrocks.Scanner.Outcome.{iterate}
use yamlrocks.Scanner.Quoted.{Cow, at_most}
use yamlrocks.Scanner.Quoted.Within.{left, left-advance_line}
use yamlrocks.Scanner.Block.{
  Chomping, indicator_step, header_rest_step, detect_step, scan_empty_block, scan_body, scan_block,
  new_header, max_zero,
}
use yamlrocks.Scanner.Invariant.Reaches.{
  Reaches, Reaches-bind, Reaches-map, Reaches-weaken, Within-at_most, iterate-Reaches,
}
use yamlrocks.Scanner.Invariant.Sizes.{left-advance}
use yamlrocks.Scanner.Block.Opening.{
  indicator_step-Steps, header_rest_step-Steps, detect_step-Steps,
}
use yamlrocks.Scanner.Block.Lines.{scan_empty_block-Within, scan_content-Within}

abbrev Ends : ℕ → Cow × Reader → Type 0
Ends n (cow, r) = left r ≤ n

scan_body-Ends :
    (literal : Bool) (chomping : Chomping) (explicit : Option ℕ) (parent : ℤ) (start : Span)
    (r : Reader)
    → Reaches (Ends (left r)) (scan_body literal chomping explicit parent start r)
unfolding scan_body
scan_body-Ends literal chomping (some explicit) parent start r =
    Within-at_most (left r) _ (scan_content-Within literal chomping (max_zero parent + explicit) r)
scan_body-Ends literal chomping none parent start r =
    Reaches-bind (λ _. Unit) (Ends (left r)) (iterate detect_step (suc (length r.rest)) (0, r)) _
      (λ p _. elim (Bool-cases (at_most p.0 parent)) [
        | inl a ↦ rw (a) (
            Reaches-map (λ p. left p.1 ≤ left r) (Ends (left r)) _ (scan_empty_block r chomping)
              (λ q l. l) (Within-at_most (left r) _ (scan_empty_block-Within r chomping)))
        | inr a ↦ elim (Bool-cases (ltb p.0 p.1)) [
          | inl b ↦ rw (a, b) tt
          | inr b ↦
              rw (a, b) (Within-at_most (left r) _ (scan_content-Within literal chomping p.0 r))
        ]
      ])
      (iterate-Reaches (λ _. Unit) (λ p. left p.1) (λ _. Unit) detect_step
        (λ p _. detect_step-Steps p) (suc (length r.rest)) (0, r) tt (omega arith))

left-header_break : (r : Reader) → left (if is_break (peek r) then advance_line r else r) ≤ left r
left-header_break r =
    let a = left-advance_line r in
    elim (Bool-cases (is_break (peek r))) [ inl h ↦ rw (h) a | inr h ↦ rw (h) (omega arith) ]

-- On every input `scan_block` ends, with an error or with a value and a reader that stands behind
-- the indicator.
pub scan_block-advance :
    (src : Source) (literal : Bool) (parent : ℤ) (r : Reader)
    → Reaches (λ p. left p.1 ≤ left (advance r)) (scan_block src literal parent r)
unfolding scan_block
scan_block-advance src literal parent r =
    let n : ℕ = left (advance r) in
    let l = left-advance r in
    Reaches-bind (λ h. left h.reader ≤ n) (Ends n)
      (iterate indicator_step (suc (length r.rest)) (new_header (advance r))) _
      (λ h k.
        Reaches-bind (λ r1. left r1 ≤ n) (Ends n)
          (iterate (header_rest_step src) (suc (length r.rest)) h.reader) _
          (λ r1 k1.
            let b = left-header_break r1 in
            Reaches-weaken (Ends (left (if is_break (peek r1) then advance_line r1 else r1)))
              (Ends n) _ (λ p q. omega arith)
              (scan_body-Ends literal h.chomping h.explicit_indent parent r.pos _))
          (iterate-Reaches (λ r1. left r1 ≤ n) left (λ r1. left r1 ≤ n) (header_rest_step src)
            (header_rest_step-Steps src n) (suc (length r.rest)) h.reader k (omega arith)))
      (iterate-Reaches (λ h. left h.reader ≤ n) (λ h. left h.reader) (λ h. left h.reader ≤ n)
        indicator_step (indicator_step-Steps n) (suc (length r.rest)) (new_header (advance r))
        (omega arith) (omega arith))
