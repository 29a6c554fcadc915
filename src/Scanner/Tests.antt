-- ===== src/Scanner/Tests.antt =====
-- The theorems on quoted scalars at concrete texts.
use yamlrocks.Common.{all, not, true, ◌∷◌, none, [], ◌++◌, Text, codes, length, ◌≡◌, refl}
use yamlrocks.Common.Int.{pos, negsuc}
use yamlrocks.Scanner.Reader.{Span, past_text, take_run}
use yamlrocks.Scanner.CharClass.{is_break}
use yamlrocks.Scanner.Runs.{Stopped, take_run-append}
use yamlrocks.Scanner.Outcome.{ok, Within}
use yamlrocks.Scanner.Quoted.{texted}
use yamlrocks.Scanner.Quoted.Single.{scan_single_quoted}
use yamlrocks.Scanner.Quoted.Single.RoundTrip.{scan_single_quoted-push_single_quoted}
use yamlrocks.Scanner.Quoted.Single.Total.{scan_single_quoted-Within}
use yamlrocks.Scanner.Quoted.Double.{scan_double_quoted}
use yamlrocks.Scanner.Quoted.Double.RoundTrip.{scan_double_quoted-push_double_quoted}
use yamlrocks.Scanner.Quoted.Double.Total.{scan_double_quoted-Within}
use yamlrocks.Scanner.Printable.{as_bytes, check_printable}
use yamlrocks.Scanner.Printable.Mirror.{
  first_non_printable, check_printable-as_bytes, check_printable-push_double_quoted,
}
use yamlrocks.Emit.Scalar.{push_single_quoted, push_double_quoted, single_capable, is_non_printable}

abbrev origin : Span
origin = record { line = 0; column = 0; offset = 0 }

abbrev tabbed : Text
tabbed = codes "tab\there \"and\" back\\slash\n"

abbrev apostrophe : Text
apostrophe = codes "it's"

abbrev folded_text : Text
folded_text = codes "\"one  \n \n  two\\\n   three\" rest"

scan_double_quoted-push_double_quoted_example :
    texted (
      scan_double_quoted
        (negsuc 0)
        (record { rest = push_double_quoted [] tabbed ++ codes ": x"; pos = origin }))
    ≡ ok (
      tabbed,
      record { rest = codes ": x"; pos = past_text (push_double_quoted [] tabbed) origin },
    )
scan_double_quoted-push_double_quoted_example =
    scan_double_quoted-push_double_quoted (negsuc 0) tabbed (codes ": x") origin

capable : single_capable apostrophe ≡ true
unfolding single_capable is_non_printable
capable = refl

scan_single_quoted-push_single_quoted_example :
    texted (
      scan_single_quoted
        (pos 2)
        (record { rest = push_single_quoted [] apostrophe ++ codes ", x"; pos = origin }))
    ≡ ok (
      apostrophe,
      record { rest = codes ", x"; pos = past_text (push_single_quoted [] apostrophe) origin },
    )
scan_single_quoted-push_single_quoted_example =
    scan_single_quoted-push_single_quoted (pos 2) apostrophe (codes ", x") origin capable refl

scan_double_quoted-Within_example :
    Within
      (length folded_text)
      (scan_double_quoted (pos 0) (record { rest = folded_text; pos = origin }))
scan_double_quoted-Within_example =
    scan_double_quoted-Within (pos 0) (record { rest = folded_text; pos = origin })

scan_single_quoted-Within_example :
    Within
      (length folded_text)
      (scan_single_quoted (pos 0) (record { rest = folded_text; pos = origin }))
scan_single_quoted-Within_example =
    scan_single_quoted-Within (pos 0) (record { rest = folded_text; pos = origin })

abbrev controls : Text
controls = codes "a" ++ 0x85 ∷ 0x80 ∷ codes "b"

check_printable-as_bytes_example :
    check_printable 0 (as_bytes controls) ≡ first_non_printable 0 controls
check_printable-as_bytes_example = check_printable-as_bytes 0 controls

check_printable-push_double_quoted_example :
    check_printable 7 (as_bytes (push_double_quoted [] controls)) ≡ none
check_printable-push_double_quoted_example = check_printable-push_double_quoted 7 controls

take_run-append_example :
    ((take_run is_break (codes "ab\nc") origin).0
        ++ (take_run is_break (codes "ab\nc") origin).1.rest
      ≡ codes "ab\nc")
    × ((take_run is_break (codes "ab\nc") origin).1.pos
        ≡ past_text (take_run is_break (codes "ab\nc") origin).0 origin)
    × Stopped is_break (take_run is_break (codes "ab\nc") origin).1.rest
    × (all (λ c. not (is_break c)) (take_run is_break (codes "ab\nc") origin).0 ≡ true)
take_run-append_example = take_run-append is_break (codes "ab\nc") origin
