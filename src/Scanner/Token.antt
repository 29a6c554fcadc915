-- ===== src/Scanner/Token.antt =====
-- Tokens (src/scanner/token.rs) and comments (src/scanner/comment.rs).
use yamlrocks.Common.{ℕ, Bool, Text}
use yamlrocks.Resolver.Kind.{ScalarStyle}
use yamlrocks.Scanner.Reader.{Span}
use yamlrocks.Scanner.Quoted.{Cow}

pub data TokenKind : Type 0 where
  stream_start stream_end document_start document_end : TokenKind
  directive : Text → TokenKind
  block_mapping_start block_sequence_start block_end block_entry : TokenKind
  flow_mapping_start flow_mapping_end flow_sequence_start flow_sequence_end flow_entry : TokenKind
  key : Bool → TokenKind
  value : TokenKind
  scalar : Cow → ScalarStyle → TokenKind
  anchor alias tag : Text → TokenKind

pub record Token : Type 0 where
  pub kind : TokenKind
  pub span : Span
  pub end_offset : ℕ

-- `Token::new`
abbrev pub token : TokenKind → Span → Token
token kind span = record { kind = kind; span = span; end_offset = span.offset }

pub record Comment : Type 0 where
  pub text : Text
  pub span : Span
