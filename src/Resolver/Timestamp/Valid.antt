-- ===== src/Resolver/Timestamp/Valid.antt =====
-- Every timestamp that is read lies in range (src/resolver/timestamp.rs).
use yamlrocks.Common.{
  ℕ, ◌-◌, ◌^◌, ◌≤◌, ◌<◌, Bool, true, false, not, ◌||◌, ◌≡◌, ◌∙◌, Option, none, some, [], ◌∷◌, ◌++◌,
  Text, is_empty, length, take, min, replicate, arith, ltb, ◌==◌, length-append, length-take,
  length-replicate, Ensures, Ensures-bind, Ensures-if, Ensures-elim, subst,
}
use yamlrocks.Common.Digits.{from_str_unsigned}
use yamlrocks.Common.Digits.Unsigned.{from_str_unsigned-lt}
use yamlrocks.Common.Int.{ℤ}
use yamlrocks.Resolver.Timestamp.RoundTrip.{IsOffset, IsValid, valid_date-IsDate, parse-to_iso}
use yamlrocks.Resolver.Timestamp.{
  Date, Time, Timestamp, date, date_time, valid_date, micros_of, fraction, zone, checked, date_only,
  is_far, parse_time, parse, to_iso, spaces, digits, number, byte, time_separator,
}

micros_of-lt : (frac : Text) (n : ℕ) → micros_of frac ≡ some n → n < 1000000
unfolding micros_of
micros_of-lt [] n h = ground arith
micros_of-lt (c ∷ cs) n h =
    let kept = take (min (length (c ∷ cs)) 6) (c ∷ cs) in
    let six : length (kept ++ replicate (6 - length kept) b'0') ≡ 6 =
      length-append kept (replicate (6 - length kept) b'0')
      ∙ omega (
        arith,
        length-take (min (length (c ∷ cs)) 6) (c ∷ cs),
        length-replicate {A = ℕ} (6 - length kept) b'0',
      ) in
    let bound = from_str_unsigned-lt (2 ^ 32 - 1) (kept ++ replicate (6 - length kept) b'0') n h in
    subst (λ k. n < 10 ^ k) six bound

fraction-lt : (s : Text) → Ensures (λ r. r.0 < 1000000) (fraction s)
unfolding fraction
fraction-lt [] = omega arith
fraction-lt (c ∷ cs) =
    Ensures-if _ (c == b'.') _ _
      (λ _.
        Ensures-bind _ (digits 0 (length cs) cs) _
          (λ r e. Ensures-bind _ (micros_of r.0) _ (λ n e'. micros_of-lt r.0 n e')))
      (λ _. omega arith)

-- The tests that fail for a time in range, each by itself.
near : (o : Option ℤ) → is_far o ≡ false → IsOffset o
near none h = tt
near (some z) h = ground arith

in_range :
    (valid : Bool) (t : Time) (far : Bool)
    → (not valid || ltb 23 t.hour || ltb 59 t.minute || ltb 59 t.second || far) ≡ false
    → (valid ≡ true) × (t.hour ≤ 23) × (t.minute ≤ 59) × (t.second ≤ 59) × (far ≡ false)
in_range valid t far h = ground arith

checked-Ensures :
    (d : Date) (t : Time) (o : Option ℤ) (rest : Text)
    → t.microsecond < 1000000
    → Ensures IsValid (checked d t o rest)
unfolding checked
checked-Ensures d t o rest h =
    Ensures-if IsValid (not (is_empty rest)) _ _ (λ _. tt)
      (λ _.
        Ensures-if IsValid _ none (some (date_time d t o)) (λ _. tt)
          (λ ok.
            let (v, a, b, c, far) = in_range (valid_date d) t (is_far o) ok in
            (
              (valid_date-IsDate d).0 v,
              record { hour_in = a; minute_in = b; second_in = c; microsecond_in = h },
              near o far,
            )))

parse_time-Ensures : (d : Date) (s : Text) → Ensures IsValid (parse_time d s)
unfolding parse_time
parse_time-Ensures d s = Ensures-bind _ (time_separator s) _ λ s e.
    Ensures-bind _ (number 255 1 2 s) _ λ hour e. Ensures-bind _ (byte b':' hour.1) _ λ s e.
      Ensures-bind _ (number 255 2 2 s) _ λ minute e. Ensures-bind _ (byte b':' minute.1) _ λ s e.
        Ensures-bind _ (number 255 2 2 s) _ λ second e.
          Ensures-bind _ (fraction second.1) _ λ micro e.
            Ensures-bind _ (zone (spaces micro.1)) _ λ offset e'.
              checked-Ensures _ _ _ _ (Ensures-elim _ (fraction second.1) (fraction-lt second.1) e)

two_digits : (a b v : Bool) → (not a || not b || not v) ≡ false → v ≡ true
two_digits a b v h = ground arith

date_only-Ensures : (d : Date) (m k : ℕ) → Ensures IsValid (date_only d m k)
unfolding date_only
date_only-Ensures d m k =
    Ensures-if IsValid _ none (some (date d)) (λ _. tt)
      (λ ok. (valid_date-IsDate d).0 (two_digits _ _ _ ok))

parse-Ensures : (s : Text) → Ensures IsValid (parse s)
unfolding parse
parse-Ensures s = Ensures-bind _ (number (2 ^ 31 - 1) 4 4 s) _ λ year e.
    Ensures-bind _ (byte b'-' year.1) _ λ s e. Ensures-bind _ (digits 1 2 s) _ λ ms e.
      Ensures-bind _ (from_str_unsigned 255 ms.0) _ λ month e.
        Ensures-bind _ (byte b'-' ms.1) _ λ s e. Ensures-bind _ (digits 1 2 s) _ λ ds e.
          Ensures-bind _ (from_str_unsigned 255 ds.0) _ λ day e.
            Ensures-if IsValid (is_empty ds.1) _ _ (λ _. date_only-Ensures _ _ _)
              (λ _. parse_time-Ensures _ ds.1)

-- Whatever a text is read as lies in the calendar, in the day, and within a day of UTC.
pub parse-IsValid : (s : Text) (t : Timestamp) → parse s ≡ some t → IsValid t
parse-IsValid s t h = Ensures-elim IsValid (parse s) (parse-Ensures s) h

-- Writing what was read, and reading it again, changes nothing.
pub parse-to_iso-parse : (s : Text) (t : Timestamp) → parse s ≡ some t → parse (to_iso t) ≡ some t
parse-to_iso-parse s t h = parse-to_iso t (parse-IsValid s t h)
