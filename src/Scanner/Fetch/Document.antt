-- ===== src/Scanner/Fetch/Document.antt =====
-- Document markers and directives (`fetch_document_start` to `fetch_directive` in
-- src/scanner/mod.rs).
use yamlrocks.Common.{true, false, not, ◌||◌, ◌==◌, if◌then◌else◌}
use yamlrocks.Common.Int.{negsuc}
use yamlrocks.Scanner.CharClass.{is_break}
use yamlrocks.Scanner.Reader.{advance, peek_after_blanks}
use yamlrocks.Scanner.Runs.{take_until_line_break, advance_n}
use yamlrocks.Scanner.Outcome.{content_after_document_end, late_directive, Scan, ok, err}
use yamlrocks.Scanner.Quoted.{none_or}
use yamlrocks.Scanner.Token.{document_start, document_end, directive, token}
use yamlrocks.Scanner.State.{Scanner, push_back}
use yamlrocks.Scanner.Fetch.Indent.{unwind_indents}

unfoldable pub fetch_document_start : Scanner → Scan Scanner
unfolding unwind_indents
fetch_document_start s =
    let closed : Scanner = unwind_indents (negsuc 0) s in
    ok (
      push_back (token document_start s.reader.pos) (record closed {
        current_indent = negsuc 0;
        reader = advance_n 3 s.reader;
        simple_key_allowed = false;
        on_doc_start_line = true;
      }))

unfoldable pub fetch_document_end : Scanner → Scan Scanner
unfolding unwind_indents
fetch_document_end s =
    let closed : Scanner = unwind_indents (negsuc 0) s in
    let behind = advance_n 3 s.reader in
    if none_or (λ c. is_break c || c == b'#') (peek_after_blanks behind)
    then ok (
        push_back (token document_end s.reader.pos) (record closed {
          current_indent = negsuc 0;
          reader = behind;
          simple_key_allowed = false;
          directives_allowed = true;
        }))
    else err content_after_document_end s.reader.pos

unfoldable pub fetch_directive : Scanner → Scan Scanner
unfolding unwind_indents
fetch_directive s =
    let closed : Scanner = unwind_indents (negsuc 0) s in
    let (text, r) = take_until_line_break (advance s.reader) in
    if not s.directives_allowed
    then err late_directive s.reader.pos
    else ok (
        push_back (token (directive text) s.reader.pos)
          (record closed { reader = r; simple_key_allowed = false }))
