-- ===== src/Scanner/Invariant/Dispatch.antt =====
-- The dispatch on the next character keeps the invariant, and takes a character.
use yamlrocks.Common.{ℕ, Bool, true, false, not, ◌&&◌, ◌||◌, List, ◌==◌, ◌≡◌}
use yamlrocks.Scanner.CharClass.{is_whitespace_or_break, is_whitespace_or_flow}
use yamlrocks.Scanner.Reader.{is_eof, peek}
use yamlrocks.Scanner.Runs.{peek_next, check_next_is_blank, check_next_is_break_or_eof}
use yamlrocks.Scanner.Outcome.{Scan}
use yamlrocks.Scanner.Quoted.{none_or, at_document_marker}
use yamlrocks.Scanner.Quoted.Within.{left}
use yamlrocks.Scanner.Token.{Token}
use yamlrocks.Scanner.State.{Scanner, in_flow}
use yamlrocks.Scanner.Fetch.Flow.{opened}
use yamlrocks.Scanner.Fetch.{
  seen, flow_node, is_separator, flow_token, fetch_flow_token, marker_of, block_token, settled,
  fetch_block_token, fetch_next_token,
}
use yamlrocks.Scanner.Invariant.Live.{core, Live}
use yamlrocks.Scanner.Invariant.Reaches.{Reaches, Reaches-map, Reaches-if, Reaches-guard}
use yamlrocks.Scanner.Invariant.Entry.{
  Good, fetch_document_start-Good, fetch_document_end-Good, fetch_directive-Good,
  fetch_flow_collection_start-Good, fetch_flow_collection_end-Good, fetch_flow_entry-Good,
}
use yamlrocks.Scanner.Invariant.Entry.Keys.{
  fetch_block_entry-Good, fetch_key-Good, fetch_value-Good,
}
use yamlrocks.Scanner.Invariant.Content.{fetch_anchor-Good, fetch_alias-Good, fetch_tag-Good}
use yamlrocks.Scanner.Invariant.Content.Scalars.{
  fetch_single_quoted-Good, fetch_double_quoted-Good, fetch_block_scalar-Good,
  fetch_plain_scalar-Good,
}
use yamlrocks.Scanner.Invariant.Sizes.{is_eof-left}
use yamlrocks.Scanner.Invariant.Start.{starts_in_block, starts_in_flow, not_indicator}

flow_node-Good :
    (e : List Token) (n : ℕ) (m : Scan Scanner)
    → Reaches (Good e n) m
    → Reaches (Good e n) (flow_node m)
unfolding flow_node
flow_node-Good e n m g = Reaches-map (Good e n) (Good e n) seen m (λ s h. h) g

block_token-Good :
    (e : List Token) (after_entry : Bool) (s : Scanner)
    → Live e (core s)
    → is_eof s.reader ≡ false
    → in_flow s ≡ false
    → Reaches (Good e (left s.reader)) (block_token after_entry (peek s.reader) s)
unfolding block_token
block_token-Good e after_entry s h eof f =
    let z = is_eof-left s.reader eof in
    let Q = Good e (left s.reader) in
    let ch = peek s.reader in
    let spaced = none_or is_whitespace_or_break (peek_next s.reader) in
    Reaches-if Q
      (ch == b'-' && (check_next_is_blank s.reader || check_next_is_break_or_eof s.reader)) _ _
      (λ _. fetch_block_entry-Good e after_entry s h z f)
      (λ _.
        Reaches-if Q (ch == b'-' && marker_of b'-' s) _ _ (λ _. fetch_document_start-Good e s h z f)
          (λ _.
            Reaches-if Q (ch == b'.' && marker_of b'.' s) _ _
              (λ _. fetch_document_end-Good e s h z f)
              (λ _.
                Reaches-if Q (ch == b'%' && s.reader.pos.column == 0) _ _
                  (λ _. fetch_directive-Good e s h z f)
                  (λ _.
                    Reaches-if Q (ch == b'[') _ _
                      (λ _. fetch_flow_collection_start-Good e false s h z)
                      (λ _.
                        Reaches-if Q (ch == b'{') _ _
                          (λ _. fetch_flow_collection_start-Good e true s h z)
                          (λ _.
                            Reaches-if Q (ch == b']') _ _
                              (λ _. fetch_flow_collection_end-Good e false s h z)
                              (λ _.
                                Reaches-if Q (ch == b'}') _ _
                                  (λ _. fetch_flow_collection_end-Good e true s h z)
                                  (λ _.
                                    Reaches-if Q (ch == b'?' && spaced) _ _
                                      (λ _. fetch_key-Good e s h z)
                                      (λ _.
                                        Reaches-if Q (ch == b':' && spaced) _ _
                                          (λ _. fetch_value-Good e s h z)
                                          (λ colon. Reaches-guard Q (ch == b',') _ _ _ (λ _.
                                            Reaches-if Q (ch == b'\'') _ _
                                              (λ _. fetch_single_quoted-Good e s h z)
                                              (λ _.
                                                Reaches-if Q (ch == b'"') _ _
                                                  (λ _. fetch_double_quoted-Good e s h z)
                                                  (λ _.
                                                    Reaches-if Q (ch == b'|') _ _
                                                      (λ _. fetch_block_scalar-Good e true s h z)
                                                      (λ _.
                                                        Reaches-if Q (ch == b'>') _ _
                                                          (λ _.
                                                            fetch_block_scalar-Good e false s h z)
                                                          (λ _.
                                                            Reaches-if Q (ch == b'&') _ _
                                                            (λ _. fetch_anchor-Good e s h z)
                                                            (λ _.
                                                            Reaches-if Q (ch == b'*') _ _
                                                            (λ _. fetch_alias-Good e s h z)
                                                            (λ _.
                                                            Reaches-if Q (ch == b'!') _ _
                                                            (λ _. fetch_tag-Good e s h z)
                                                            (λ _.
                                                            Reaches-guard Q (ch == b'#') _ _ _ (λ _.
                                                            Reaches-guard Q
                                                            (ch == b'@' || ch == b'`') _ _ _
                                                            (λ _. fetch_plain_scalar-Good e s h (
                                                            starts_in_block (in_flow s) ch s.reader
                                                            f eof colon)))))))))))))))))))))

flow_token-Good :
    (e : List Token) (prev_json : Bool) (s : Scanner)
    → Live e (core s)
    → is_eof s.reader ≡ false
    → in_flow s ≡ true
    → Reaches (Good e (left s.reader)) (flow_token prev_json (peek s.reader) s)
unfolding flow_token
flow_token-Good e prev_json s h eof f =
    let z = is_eof-left s.reader eof in
    let n : ℕ = left s.reader in
    let Q = Good e n in
    let ch = peek s.reader in
    let separated = none_or is_whitespace_or_flow (peek_next s.reader) in
    Reaches-if Q (ch == b'[') _ _ (λ _. fetch_flow_collection_start-Good e false s h z)
      (λ i1.
        Reaches-if Q (ch == b'{') _ _ (λ _. fetch_flow_collection_start-Good e true s h z)
          (λ i2.
            Reaches-if Q (ch == b']') _ _ (λ _. fetch_flow_collection_end-Good e false s h z)
              (λ i3.
                Reaches-if Q (ch == b'}') _ _ (λ _. fetch_flow_collection_end-Good e true s h z)
                  (λ i4.
                    Reaches-if Q (ch == b',') _ _ (λ _. fetch_flow_entry-Good e s h z f)
                      (λ i5.
                        Reaches-if Q (ch == b':' && (prev_json || separated)) _ _
                          (λ _. fetch_value-Good e s h z)
                          (λ colon.
                            Reaches-if Q (ch == b'?' && separated) _ _ (λ _. fetch_key-Good e s h z)
                              (λ _. Reaches-guard Q (ch == b'-' && separated) _ _ _ (λ _.
                                Reaches-if Q (ch == b'\'') _ _
                                  (λ _. flow_node-Good e n _ (fetch_single_quoted-Good e s h z))
                                  (λ _.
                                    Reaches-if Q (ch == b'"') _ _
                                      (λ _. flow_node-Good e n _ (fetch_double_quoted-Good e s h z))
                                      (λ _.
                                        Reaches-if Q (ch == b'&') _ _
                                          (λ _. flow_node-Good e n _ (fetch_anchor-Good e s h z))
                                          (λ _.
                                            Reaches-if Q (ch == b'*') _ _
                                              (λ _. flow_node-Good e n _ (fetch_alias-Good e s h z))
                                              (λ _.
                                                Reaches-if Q (ch == b'!') _ _
                                                  (λ _.
                                                    flow_node-Good e n _ (fetch_tag-Good e s h z))
                                                  (λ _. Reaches-guard Q (ch == b'#') _ _ _ (λ _.
                                                    Reaches-guard Q (ch == b'@' || ch == b'`') _ _ _
                                                      (λ _. flow_node-Good e n _ (
                                                        fetch_plain_scalar-Good e s h (
                                                          starts_in_flow (in_flow s) ch prev_json
                                                            s.reader f eof colon
                                                            (not_indicator ch i5 i1 i3 i2
                                                            i4))))))))))))))))))

fetch_flow_token-Good :
    (e : List Token) (s : Scanner)
    → Live e (core s)
    → is_eof s.reader ≡ false
    → in_flow s ≡ true
    → Reaches (Good e (left s.reader)) (fetch_flow_token (peek s.reader) s)
unfolding fetch_flow_token
fetch_flow_token-Good e s h eof f =
    let Q = Good e (left s.reader) in
    let ch = peek s.reader in
    Reaches-guard Q (at_document_marker s.reader) _ _ _ (λ _.
      Reaches-guard Q (not (is_separator ch s.reader) && s.flow_need_sep) _ _ _ (λ _.
        Reaches-guard Q
          (ch == b':'
            && (s.flow_need_sep
                && (not s.flow_explicit_key
                    && (opened false s.flow_kinds
                        && not (s.flow_pending_key_line == s.reader.pos.line)))))
          _ _ _
          (λ _. flow_token-Good e s.flow_prev_json (record s { flow_prev_json = false }) h eof f)))

fetch_block_token-Good :
    (e : List Token) (s : Scanner)
    → Live e (core s)
    → is_eof s.reader ≡ false
    → in_flow s ≡ false
    → Reaches (Good e (left s.reader)) (fetch_block_token (peek s.reader) s)
unfolding fetch_block_token settled
fetch_block_token-Good e s h eof f =
    block_token-Good e s.after_block_entry (settled (peek s.reader) s) h eof f

pub fetch_next_token-Good :
    (e : List Token) (s : Scanner)
    → Live e (core s)
    → is_eof s.reader ≡ false
    → Reaches (Good e (left s.reader)) (fetch_next_token s)
unfolding fetch_next_token
fetch_next_token-Good e s h eof =
    Reaches-if (Good e (left s.reader)) (in_flow s) _ _ (fetch_flow_token-Good e s h eof)
      (fetch_block_token-Good e s h eof)
