-- ===== src/Resolver/Timestamp/RoundTrip.antt =====
-- Reading back what `to_iso` writes, and what every reading satisfies (src/resolver/timestamp.rs).
use yamlrocks.Common.{
  ℕ, zero, suc, ◌+◌, ◌-◌, ◌*◌, ◌/◌, ◌%◌, ◌^◌, ◌≤◌, ◌<◌, Bool, true, false, ◌≡◌, refl, sym, ap, ◌∙◌,
  ◌↔◌, Option, none, some, [], ◌∷◌, ◌++◌, Text, is_empty, length, take, arith, ◌⊎◌, ◌≢◌, ltb,
  if◌then◌else◌, append-nil, append_assoc, length-append, lt→ltb, min,
}
use yamlrocks.Common.Decimal.{zero_padded, length-zero_padded}
use yamlrocks.Common.Digits.{from_str_unsigned}
use yamlrocks.Common.Int.{ℤ, pos, negsuc, nat_abs, signed}
use yamlrocks.Resolver.Timestamp.Fields.{
  no_digit, take_digits-run, all_digits-zero_padded, number-zero_padded, digits-zero_padded,
  from_str_unsigned-zero_padded,
}
use yamlrocks.Resolver.Timestamp.{
  Date, Time, Timestamp, date, date_time, iso_date, iso_time, iso_fraction, iso_offset, to_iso,
  is_leap_year, days_in_month, valid_date, byte, date_only, spaces, zone_offset, zone_minutes,
  micros_of, digits, time_separator, is_far, parse_time, parse, checked, fraction, zone,
}

-- The months of 31 days: every other one, from January to July and from August to December.
abbrev pub IsLong : ℕ → Type 0
IsLong month = ((month ≤ 7) × (month % 2 ≡ 1)) ⊎ ((8 ≤ month) × (month % 2 ≡ 0))

-- The leap years of the Gregorian calendar
abbrev pub IsLeap : ℕ → Type 0
IsLeap year = (year % 400 ≡ 0) ⊎ ((year % 4 ≡ 0) × (0 < year % 100))

-- Every month has 28 days, every one but February 30, the long ones 31, and February 29 in a leap year.
abbrev pub HasDay : ℕ → ℕ → ℕ → Type 0
HasDay year month day =
    (day ≤ 28)
    ⊎ (((day ≤ 30) × (month ≢ 2))
        ⊎ (((day ≤ 31) × IsLong month) ⊎ ((day ≤ 29) × (month ≡ 2) × IsLeap year)))

-- A date of the calendar.
pub record IsDate (d : Date) : Type 0 where
  pub year_in : (1 ≤ d.year) × (d.year ≤ 9999)
  pub month_in : (1 ≤ d.month) × (d.month ≤ 12)
  pub day_in : (1 ≤ d.day) × HasDay d.year d.month d.day

pub record IsTime (t : Time) : Type 0 where
  pub hour_in : t.hour ≤ 23
  pub minute_in : t.minute ≤ 59
  pub second_in : t.second ≤ 59
  pub microsecond_in : t.microsecond < 1000000

-- Less than a day either way.
abbrev pub IsOffset : Option ℤ → Type 0
IsOffset none = Unit
IsOffset (some o) = nat_abs o < 1440

abbrev pub IsValid : Timestamp → Type 0
IsValid (date d) = IsDate d
IsValid (date_time d t o) = IsDate d × IsTime t × IsOffset o

days-HasDay : (y m d : ℕ) → 1 ≤ m → m ≤ 12 → d ≤ days_in_month y m → HasDay y m d
unfolding days_in_month is_leap_year
days-HasDay y m d a b h = ground arith

HasDay-days : (y m d : ℕ) → 1 ≤ m → m ≤ 12 → HasDay y m d → d ≤ days_in_month y m
unfolding days_in_month is_leap_year
HasDay-days y m d a b h = ground arith

pub valid_date-IsDate : (d : Date) → (valid_date d ≡ true) ↔ IsDate d
unfolding valid_date
valid_date-IsDate d = (
  λ h.
      let (y, m, k, l) = valid_parts d h in
      record {
        year_in = y;
        month_in = m;
        day_in = (k, days-HasDay d.year d.month d.day m.0 m.1 l);
      },
  λ h.
      let l = HasDay-days d.year d.month d.day h.month_in.0 h.month_in.1 h.day_in.1 in
      let (y, m, k) : ((1 ≤ d.year) × (d.year ≤ 9999))
          × ((1 ≤ d.month) × (d.month ≤ 12))
          × (1 ≤ d.day) =
        (h.year_in, h.month_in, h.day_in.0) in
      ground arith,
)
  where
    valid_parts :
        (d : Date)
        → valid_date d ≡ true
        → ((1 ≤ d.year) × (d.year ≤ 9999))
          × ((1 ≤ d.month) × (d.month ≤ 12))
          × (1 ≤ d.day)
          × (d.day ≤ days_in_month d.year d.month)
    valid_parts d h = ground arith

days_in_month-le : (y m : ℕ) → days_in_month y m ≤ 31
unfolding days_in_month
days_in_month-le y m = ground arith

-- The date part, with anything behind it.
parse-iso_date :
    (d : Date) (rest : Text)
    → IsDate d
    → parse (iso_date d ++ rest) ≡ (if is_empty rest then date_only d 2 2 else parse_time d rest)
unfolding parse byte
parse-iso_date d rest v =
    let m : d.month < 10 ^ 2 = omega arith in
    let k : d.day < 10 ^ 2 = omega (arith, days_in_month-le d.year d.month) in
    simp append_assoc (
      rw (
        number-zero_padded (2 ^ 31 - 1) 4 4 d.year _ (omega arith) (omega arith) (omega arith)
            (omega arith),
        digits-zero_padded 1 2 d.month _ (omega arith) (omega arith) m,
        from_str_unsigned-zero_padded 255 2 d.month (omega arith) m (omega arith),
        digits-zero_padded 1 2 d.day rest (omega arith) (omega arith) k,
        from_str_unsigned-zero_padded 255 2 d.day (omega arith) k (omega arith),
        length-zero_padded 2 d.month (omega arith) m,
        length-zero_padded 2 d.day (omega arith) k,
      ))

-- The zone.
zone_digits :
    (negative : Bool) (n : ℕ)
    → n < 1440
    → zone_offset negative (zero_padded 2 (n / 60) ++ (b':' ∷ zero_padded 2 (n % 60)))
      ≡ some (some (signed negative n), [])
unfolding zone_offset zone_minutes
zone_digits negative n h =
    let whole : n / 60 * 60 + n % 60 ≡ n = omega arith in
    rw (
      number-zero_padded (2 ^ 31 - 1) 1 2 (n / 60) _ (omega arith) (omega arith) (omega arith)
          (omega arith),
      ← append-nil (zero_padded 2 (n % 60)),
      number-zero_padded (2 ^ 31 - 1) 2 2 (n % 60) [] (omega arith) (omega arith) (omega arith)
          (omega arith),
      whole,
    )

zone-iso_offset : (o : Option ℤ) → IsOffset o → zone (spaces (iso_offset o)) ≡ some (o, [])
unfolding zone spaces
zone-iso_offset none v = refl
zone-iso_offset (some (pos n)) v = zone_digits false n v
zone-iso_offset (some (negsuc n)) v = zone_digits true (suc n) v

iso_offset-no_digit : (o : Option ℤ) → no_digit (iso_offset o) ≡ true
iso_offset-no_digit none = refl
iso_offset-no_digit (some (pos n)) = refl
iso_offset-no_digit (some (negsuc n)) = refl

take-length : (s : Text) → take (length s) s ≡ s
take-length [] = refl
take-length (c ∷ s) = ap (λ t. c ∷ t) (take-length s)

min_self6 : (n : ℕ) → n ≡ 6 → min n 6 ≡ n
min_self6 n h = omega arith

micros_six : (s : Text) → length s ≡ 6 → micros_of s ≡ from_str_unsigned (2 ^ 32 - 1) s
unfolding micros_of
micros_six [] e = absurd (omega arith)
micros_six (c ∷ cs) e =
    let kept : take (min (length (c ∷ cs)) 6) (c ∷ cs) ≡ c ∷ cs =
      ap (λ k. take k (c ∷ cs)) (min_self6 (length (c ∷ cs)) e) ∙ take-length (c ∷ cs) in
    rw (kept, e, append-nil)

micros_of-zero_padded : (m : ℕ) → m < 1000000 → micros_of (zero_padded 6 m) ≡ some m
micros_of-zero_padded m h =
    micros_six (zero_padded 6 m) (length-zero_padded 6 m (omega arith) h)
    ∙ from_str_unsigned-zero_padded (2 ^ 32 - 1) 6 m (omega arith) h (omega arith)

not-ltb-zero : (n : ℕ) → ltb n 0 ≡ false
not-ltb-zero n = ground arith

digits-unbounded :
    (m : ℕ) (rest : Text)
    → no_digit rest ≡ true
    → digits 0 (length (zero_padded 6 m ++ rest)) (zero_padded 6 m ++ rest)
      ≡ some (zero_padded 6 m, rest)
unfolding digits
digits-unbounded m rest h = rw (
  take_digits-run (length (zero_padded 6 m ++ rest)) (zero_padded 6 m) rest
      (all_digits-zero_padded 6 m) h (omega (arith, length-append (zero_padded 6 m) rest)),
  not-ltb-zero,
)

fraction-iso_offset : (o : Option ℤ) → fraction (iso_offset o) ≡ some (0, iso_offset o)
unfolding fraction
fraction-iso_offset none = refl
fraction-iso_offset (some (pos n)) = refl
fraction-iso_offset (some (negsuc n)) = refl

fraction-iso_fraction :
    (m : ℕ) (o : Option ℤ)
    → m < 1000000
    → fraction (iso_fraction m ++ iso_offset o) ≡ some (m, iso_offset o)
unfolding fraction
fraction-iso_fraction zero o h = fraction-iso_offset o
fraction-iso_fraction (suc m) o h = rw (
  lt→ltb 0 (suc m) (omega arith),
  digits-unbounded (suc m) (iso_offset o) (iso_offset-no_digit o),
  micros_of-zero_padded (suc m) h,
)

parse_time-iso :
    (d : Date) (t : Time) (o : Option ℤ)
    → IsTime t
    → IsOffset o
    → parse_time d (b'T' ∷ (iso_time t ++ (iso_fraction t.microsecond ++ iso_offset o)))
      ≡ checked d t o []
unfolding parse_time time_separator byte
parse_time-iso d t o v w =
    let h : t.hour < 10 ^ 2 = omega arith in
    let m : t.minute < 10 ^ 2 = omega arith in
    let s : t.second < 10 ^ 2 = omega arith in
    simp append_assoc (
      rw
        (
          number-zero_padded 255 1 2 t.hour _ (omega arith) (omega arith) h (omega arith),
          number-zero_padded 255 2 2 t.minute _ (omega arith) (omega arith) m (omega arith),
          number-zero_padded 255 2 2 t.second _ (omega arith) (omega arith) s (omega arith),
          fraction-iso_fraction t.microsecond o v.microsecond_in,
          zone-iso_offset o w,
        )
        (unfold spaces in refl))

not_far : (o : Option ℤ) → IsOffset o → is_far o ≡ false
not_far none x = refl
not_far (some z) x = ground arith

checked-IsValid :
    (d : Date) (t : Time) (o : Option ℤ)
    → IsDate d
    → IsTime t
    → IsOffset o
    → checked d t o [] ≡ some (date_time d t o)
unfolding checked
checked-IsValid d t o v w x = rw ((valid_date-IsDate d).1 v, not_far o x) (ground arith)

-- What is written for a timestamp in range is read back as it was.
pub parse-to_iso : (t : Timestamp) → IsValid t → parse (to_iso t) ≡ some t
unfolding to_iso
parse-to_iso (date d) v =
    ap parse (sym (append-nil (iso_date d)))
    ∙ parse-iso_date d [] v
    ∙ unfold date_only in rw ((valid_date-IsDate d).1 v)
parse-to_iso (date_time d t o) (v, w, x) =
    parse-iso_date d _ v ∙ parse_time-iso d t o w x ∙ checked-IsValid d t o v w x
