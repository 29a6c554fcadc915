-- ===== src/Resolver/Timestamp.antt =====
-- Implicit timestamps (src/resolver/timestamp.rs). A cursor over the text is the text that is left,
-- and a function of it returns what is left behind.
pub mod Fields
pub mod RoundTrip
pub mod Valid
use yamlrocks.Common.{
  ℕ, zero, suc, ◌+◌, ◌-◌, ◌*◌, ◌/◌, ◌%◌, ◌^◌, Bool, true, false, not, ◌&&◌, ◌||◌, Option, none,
  some, [], ◌∷◌, ◌++◌, Text, is_empty, length, take, replicate, min, ltb, leb, ◌==◌, if◌then◌else◌,
  between, ◌>>=◌, ◌>>◌, guard,
}
use yamlrocks.Common.Digits.{is_digit, from_str_unsigned}
use yamlrocks.Common.Decimal.{zero_padded}
use yamlrocks.Common.Int.{ℤ, pos, negsuc, nat_abs, signed}

pub record Date : Type 0 where
  pub year : ℕ
  pub month : ℕ
  pub day : ℕ

pub record Time : Type 0 where
  pub hour : ℕ
  pub minute : ℕ
  pub second : ℕ
  pub microsecond : ℕ

-- The fields of `Timestamp::DateTime` stand in two records and the offset in minutes.
pub data Timestamp : Type 0 where
  date : Date → Timestamp
  date_time : Date → Time → Option ℤ → Timestamp

-- `to_iso`
abbrev iso_date : Date → Text
iso_date d =
    zero_padded 4 d.year ++ (b'-' ∷ (zero_padded 2 d.month ++ (b'-' ∷ zero_padded 2 d.day)))

abbrev iso_time : Time → Text
iso_time t =
    zero_padded 2 t.hour ++ (b':' ∷ (zero_padded 2 t.minute ++ (b':' ∷ zero_padded 2 t.second)))

abbrev iso_fraction : ℕ → Text
iso_fraction microsecond = if ltb 0 microsecond then b'.' ∷ zero_padded 6 microsecond else []

abbrev iso_offset : Option ℤ → Text
iso_offset none = []
iso_offset (some (pos n)) = b'+' ∷ (zero_padded 2 (n / 60) ++ (b':' ∷ zero_padded 2 (n % 60)))
iso_offset (some (negsuc n)) =
    b'-' ∷ (zero_padded 2 (suc n / 60) ++ (b':' ∷ zero_padded 2 (suc n % 60)))

unfoldable pub to_iso : Timestamp → Text
to_iso (date d) = iso_date d
to_iso (date_time d t offset) =
    iso_date d ++ (b'T' ∷ (iso_time t ++ (iso_fraction t.microsecond ++ iso_offset offset)))

unfoldable pub is_leap_year : ℕ → Bool
is_leap_year year = (year % 4 == 0) && (not (year % 100 == 0) || (year % 400 == 0))

unfoldable pub days_in_month : ℕ → ℕ → ℕ
unfolding is_leap_year
days_in_month year month =
    if (month == 1)
      || (month == 3)
      || (month == 5)
      || (month == 7)
      || (month == 8)
      || (month == 10)
      || (month == 12)
    then 31
    else if (month == 4) || (month == 6) || (month == 9) || (month == 11)
    then 30
    else if (month == 2) && is_leap_year year
    then 29
    else if month == 2
    then 28
    else 0

unfoldable pub valid_date : Date → Bool
unfolding days_in_month
valid_date d =
    if not (between 1 9999 d.year) || not (between 1 12 d.month) || ltb d.day 1
    then false
    else leb d.day (days_in_month d.year d.month)

-- `Cursor::byte`
unfoldable pub byte : ℕ → Text → Option Text
byte b [] = none
byte b (c ∷ cs) = if c == b then some cs else none

-- The loop of `Cursor::digits`: at most `max` digits, and what is behind them.
unfoldable pub take_digits : ℕ → Text → Text × Text
take_digits max [] = ([], [])
take_digits max (c ∷ cs) =
    let (ds, rest) = take_digits (max - 1) cs in
    if ltb 0 max && is_digit c then (c ∷ ds, rest) else ([], c ∷ cs)

-- `Cursor::digits`
unfoldable pub digits : ℕ → ℕ → Text → Option (Text × Text)
unfolding take_digits
digits low high s =
    let (ds, rest) = take_digits high s in if ltb (length ds) low then none else some (ds, rest)

-- `Cursor::spaces`
unfoldable pub spaces : Text → Text
spaces [] = []
spaces (c ∷ cs) = if c == b' ' || c == b'\t' then spaces cs else c ∷ cs

-- `Cursor::time_separator`
unfoldable pub time_separator : Text → Option Text
unfolding spaces
time_separator [] = none
time_separator (c ∷ cs) =
    if c == b'T' || c == b't'
    then some cs
    else if c == b' ' || c == b'\t'
    then some (spaces cs)
    else none

-- `digits(low, high)?.parse().ok()?` into a type whose largest value is `limit`
unfoldable pub number : ℕ → ℕ → ℕ → Text → Option (ℕ × Text)
unfolding digits from_str_unsigned
number limit low high s = do
  (ds, rest) ← digits low high s
  n ← from_str_unsigned limit ds
  some (n, rest)

abbrev u8_max : ℕ
u8_max = 255

-- The digits of a fraction, cut or filled up to six.
unfoldable pub micros_of : Text → Option ℕ
unfolding from_str_unsigned
micros_of frac =
    if is_empty frac
    then some 0
    else let kept = take (min (length frac) 6) frac in
      from_str_unsigned (2 ^ 32 - 1) (kept ++ replicate (6 - length kept) b'0')

-- The optional fraction; `usize::MAX` is no bound on a text.
unfoldable pub fraction : Text → Option (ℕ × Text)
fraction [] = some (0, [])
fraction (c ∷ cs) =
    if c == b'.'
    then (do (frac, rest) ← digits 0 (length cs) cs; micros ← micros_of frac; some (micros, rest))
    else some (0, c ∷ cs)

-- The minutes of a zone, behind its hours.
unfoldable pub zone_minutes : Text → Option (ℕ × Text)
zone_minutes [] = some (0, [])
zone_minutes (c ∷ cs) = if c == b':' then number (2 ^ 31 - 1) 2 2 cs else some (0, c ∷ cs)

unfoldable pub zone_offset : Bool → Text → Option (Option ℤ × Text)
zone_offset negative s = do
  (tz_hour, rest) ← number (2 ^ 31 - 1) 1 2 s
  (tz_minute, rest') ← zone_minutes rest
  some (some (signed negative (tz_hour * 60 + tz_minute)), rest')

-- The optional zone, behind its blanks.
unfoldable pub zone : Text → Option (Option ℤ × Text)
zone [] = some (none, [])
zone (c ∷ cs) =
    if c == b'Z' || c == b'z'
    then some (some (pos 0), cs)
    else if c == b'+'
    then zone_offset false cs
    else if c == b'-'
    then zone_offset true cs
    else none

-- `offset_minutes.is_some_and(|o| o.abs() >= 24 * 60)`
abbrev pub is_far : Option ℤ → Bool
is_far none = false
is_far (some o) = leb (24 * 60) (nat_abs o)

-- The checks behind the last blank.
unfoldable pub checked : Date → Time → Option ℤ → Text → Option Timestamp
checked d t offset rest =
    if not (is_empty rest)
    then none
    else if not (valid_date d)
        || ltb 23 t.hour
        || ltb 59 t.minute
        || ltb 59 t.second
        || is_far offset
    then none
    else some (date_time d t offset)

unfoldable pub parse_time : Date → Text → Option Timestamp
unfolding byte
parse_time d s = do
  s ← time_separator s
  (hour, s) ← number u8_max 1 2 s
  s ← byte b':' s
  (minute, s) ← number u8_max 2 2 s
  s ← byte b':' s
  (second, s) ← number u8_max 2 2 s
  (microsecond, s) ← fraction s
  (offset, s) ← zone (spaces s)
  checked d (record { hour = hour; minute = minute; second = second; microsecond = microsecond })
      offset (spaces s)

-- A date with no time part wants two digits for the month and for the day.
unfoldable pub date_only : Date → ℕ → ℕ → Option Timestamp
date_only d month_digits day_digits =
    if not (month_digits == 2) || not (day_digits == 2) || not (valid_date d)
    then none
    else some (date d)

unfoldable pub parse : Text → Option Timestamp
unfolding byte
parse value = do
  (year, s) ← number (2 ^ 31 - 1) 4 4 value
  s ← byte b'-' s
  (month_text, s) ← digits 1 2 s
  month ← from_str_unsigned u8_max month_text
  s ← byte b'-' s
  (day_text, s) ← digits 1 2 s
  day ← from_str_unsigned u8_max day_text
  let d : Date = record { year = year; month = month; day = day }
  if is_empty s then date_only d (length month_text) (length day_text) else parse_time d s
