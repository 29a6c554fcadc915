-- ===== src/Lib.antt =====
-- YAMLRocks, a YAML library: the core that is written in Rust.
--
-- A text passes through the scanner (src/scanner), which turns characters into tokens and
-- scalars; the parser and the decoder build values, and ask the resolver (src/resolver) what a
-- scalar means under a schema. Emission goes the other way: the encoders choose a style for a
-- text and write its body (src/emit_util.rs). The paths here are those of the repository.
--
-- Common holds the Boolean tests, lists, texts, integers and numerals that the parts share. A
-- text is the list of its code points; an integer of the code is a natural number or an integer
-- with its range written out.
--
-- Resolver is src/resolver/*.rs. Resolver/Kind, Atoms, Decimal and Schema are mod.rs
-- (`Schema::classify`, `Resolver::resolve`, `yaml_11_divergence`, `big_int_to_decimal`),
-- Resolver/Yaml12 is yaml12.rs, Resolver/Yaml11 is yaml11.rs, and Resolver/Timestamp is
-- timestamp.rs; Resolver/Timestamp/RoundTrip describes the calendar. The operations on `f64` are the fields of `Float64`, a parameter of which nothing
-- is assumed. Resolver/Yaml12/Grammar and Resolver/Yaml12/Literals say what an
-- integer literal of the core schema is, without the parser.
--
-- Emit is src/emit_util.rs: the bodies of quoted and block scalars, the tests for a style, folding,
-- and the spelling of floats. What the standard library writes for a float is the record `Formats`, a
-- parameter of which nothing is assumed.
--
-- Scanner is src/scanner: CharClass is char_traits.rs, Reader and Source are reader.rs, Token is
-- token.rs and comment.rs. Quoted, with its children Single and Double, Block and Plain are
-- scalar.rs. State is the struct `Scanner` of mod.rs, with every field, and Fetch its operations:
-- Fetch/Trivia is `scan_to_next_token`, Fetch/Indent the block indentation, Fetch/Document the markers
-- and directives, Fetch/Flow the flow collections, Fetch/Entry `-`, `?` and `:`, Fetch/Property
-- anchors, aliases and tags, Fetch/Content the tokens of scalars, Fetch the dispatch on the next
-- character, and Fetch/Queue `fetch_more_tokens` and `next_token`. An operation takes the scanner and
-- gives the next one or an error; the stacks have their top first.
--
-- Scanner/Invariant has the proofs on the operations: Nesting says how tokens nest, Live what holds of a
-- scanner, and the other children that each operation keeps it and takes a character.
--
-- Parser is src/parser: the events, the loop of `parse_all` and the test of a key that the decoders
-- share. The loop of `parse_all` has no fuel that the input gives: every turn takes a character or a
-- buffered token, and Parser/Ending has from this a number of turns that is enough.
--
-- A loop is a step repeated on fuel (Scanner/Outcome); a loop out of fuel is `stuck`, and so is an
-- insertion behind the end of the queue, at which the code would panic. Scanner/Printable is
-- `check_printable` of reader.rs, and Scanner/Runs its runs of characters. The fuel of a loop over
-- characters is one more than the number of characters left, and every step that goes on takes a
-- character, so that it is always enough; that of `next_token` is four more, for the start and the end
-- of the stream, and that of `unwind_indents` is one more than the number of levels.
-- Lines, columns and offsets are numbers without the bound of 32 bits, which no input below
-- 4 GiB reaches.
--
-- Json is the writer of strings of src/encode/json.rs; Json/Strings says what a string of JSON is,
-- without the writer.
--
-- Version is src/version.rs, the `%YAML` directive, and Directive is src/schema/directive.rs, the
-- comment that names a JSON Schema. Common/Whitespace has what both ask of the standard library, and
-- Version/Prefix and Directive/Block describe the kinds of line by their characters.
--
-- Not modelled: the decoder, the encoders but for JSON strings, includes, schema validation and
-- round-trip documents, for which there are no definitions yet; the bindings to Python, which are glue.
pub mod Common
pub mod Resolver
pub mod Emit
pub mod Scanner
pub mod Parser
pub mod Json
pub mod Version
pub mod Directive
