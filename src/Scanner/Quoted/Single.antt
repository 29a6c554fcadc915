-- ===== src/Scanner/Quoted/Single.antt =====
-- `scan_single_quoted` (src/scanner/scalar.rs).
pub mod RoundTrip
pub mod Total
use yamlrocks.Common.{suc, Option, none, some, [], ◌∷◌, ◌++◌, Text, length, ◌==◌, if◌then◌else◌}
use yamlrocks.Common.Int.{ℤ}
use yamlrocks.Scanner.CharClass.{is_break}
use yamlrocks.Scanner.Reader.{
  Span, Reader, past, first_char, advance, advance_text, take_single_quoted_run,
}
use yamlrocks.Scanner.Outcome.{
  unterminated_single, document_marker, Scan, ok, err, stuck, Step, done, more, iterate,
}
use yamlrocks.Scanner.Quoted.{
  Cow, borrowed, owned, buffer_of, at_document_marker, trim_trailing_blanks, fold_quoted_break,
}

-- The variables of the loop: `owned`, the slice from `run_start` to the reader, and the reader.
pub record State : Type 0 where
  pub buffer : Option Text
  pub run : Text
  pub reader : Reader

abbrev pub finished : Option Text → Text → Cow
finished none run = borrowed run
finished (some buf) run = owned (buf ++ run)

-- A fold has ended at a reader: the loop goes on, unless a document marker stands there.
abbrev pub after_fold : Span → Scan (Text × Reader) → Step State (Cow × Reader)
after_fold start (ok (buf, r)) =
    if at_document_marker r
    then done (err document_marker start)
    else more (record { buffer = some buf; run = []; reader = r })
after_fold start (err m s) = done (err m s)
after_fold start stuck = done stuck

-- The `match` on the character that stopped the run.
abbrev pub stopped : ℤ → Span → Option Text → Text → Text → Span → Step State (Cow × Reader)
stopped parent start buffer run [] s = done (err unterminated_single start)
stopped parent start buffer run (c ∷ cs) s =
    let behind = past c s in
    let here : Reader = record { rest = c ∷ cs; pos = s } in
    if c == b'\''
    then if first_char cs == b'\''
      then more (record {
        buffer = some ((buffer_of buffer ++ run) ++ b'\'' ∷ []);
        run = [];
        reader = advance_text cs behind;
      })
      else done (ok (finished buffer run, record { rest = cs; pos = behind }))
    else if is_break c
    then after_fold start
        (fold_quoted_break here (trim_trailing_blanks (buffer_of buffer ++ run)) parent)
    else more (record {
      buffer = buffer;
      run = run ++ c ∷ [];
      reader = record { rest = cs; pos = behind };
    })

unfoldable pub step : ℤ → Span → State → Step State (Cow × Reader)
step parent start st =
    let (run, r) = take_single_quoted_run st.reader in
    stopped parent start st.buffer (st.run ++ run) r.rest r.pos

unfoldable pub scan_single_quoted : ℤ → Reader → Scan (Cow × Reader)
unfolding step
scan_single_quoted parent r =
    iterate (step parent r.pos) (suc (length r.rest))
      (record { buffer = none; run = []; reader = advance r })
