-- ===== src/Scanner/State.antt =====
-- The state of the scanner (`Scanner` in src/scanner/mod.rs). The tops of its stacks stand first.
use yamlrocks.Common.{ℕ, ◌-◌, ◌^◌, Bool, true, false, Option, none, [], ◌∷◌, ◌++◌, List, Text, ltb}
use yamlrocks.Common.Int.{ℤ, negsuc}
use yamlrocks.Scanner.Reader.{Reader}
use yamlrocks.Scanner.Source.{Source, new_source, new_reader}
use yamlrocks.Scanner.Token.{Token, Comment}

-- A possible simple key: its index among the tokens, its column and line, and whether a tab stands
-- in front of it.
pub record SimpleKey : Type 0 where
  pub index : ℕ
  pub column : ℕ
  pub line : ℕ
  pub had_tab : Bool

pub record Scanner : Type 0 where
  pub source : Source
  pub reader : Reader
  pub tokens : List Token
  pub indent_stack : List ℤ
  pub current_indent : ℤ
  pub current_is_seq : Bool
  pub indent_kinds : List Bool
  pub flow_level : ℕ
  pub flow_value_seen : Bool
  pub flow_need_sep : Bool
  pub flow_kinds : List Bool
  pub flow_pending_key_line : ℕ
  pub flow_explicit_key : Bool
  pub flow_prev_json : Bool
  pub on_doc_start_line : Bool
  pub directives_allowed : Bool
  pub flow_start_line : ℕ
  pub flow_block_indent : ℤ
  pub value_indicator_line : ℕ
  pub property_line : ℕ
  pub block_value_pending : Bool
  pub after_block_entry : Bool
  pub unwound_block_level : Bool
  pub simple_key : Option SimpleKey
  pub tab_before_token : Bool
  pub stream_started : Bool
  pub stream_ended : Bool
  pub simple_key_allowed : Bool
  pub comments : List Comment
  pub record_comments : Bool

-- `u32::MAX`
abbrev u32_max : ℕ
u32_max = 2 ^ 32 - 1

unfoldable pub new : Text → Scanner
new input = record {
  source = new_source input;
  reader = new_reader input;
  tokens = [];
  indent_stack = [];
  current_indent = negsuc 0;
  current_is_seq = false;
  indent_kinds = [];
  flow_level = 0;
  flow_value_seen = false;
  flow_need_sep = false;
  flow_kinds = [];
  flow_pending_key_line = 0;
  flow_explicit_key = false;
  flow_prev_json = false;
  on_doc_start_line = false;
  directives_allowed = true;
  flow_start_line = 0;
  flow_block_indent = negsuc 0;
  value_indicator_line = u32_max;
  property_line = u32_max;
  block_value_pending = false;
  after_block_entry = false;
  unwound_block_level = false;
  simple_key = none;
  tab_before_token = false;
  stream_started = false;
  stream_ended = false;
  simple_key_allowed = true;
  comments = [];
  record_comments = false;
}

-- `self.tokens.push_back(token)`
abbrev pub push_back : Token → Scanner → Scanner
push_back t s = record s { tokens = s.tokens ++ t ∷ [] }

-- `self.flow_level > 0`
abbrev pub in_flow : Scanner → Bool
in_flow s = ltb 0 s.flow_level

abbrev pub set_reader : Reader → Scanner → Scanner
set_reader r s = record s { reader = r }
