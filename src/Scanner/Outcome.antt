-- ===== src/Scanner/Outcome.antt =====
-- What scanning gives (`Result<_, ScanError>` in src/scanner/mod.rs), and loops. A loop is a
-- step that ends it or goes on, repeated on fuel; a loop whose fuel is short is `stuck`, which no
-- input brings about when the fuel exceeds what every step lowers.
use yamlrocks.Common.{ℕ, zero, suc, ◌<◌, ◌≤◌, length, arith}
use yamlrocks.Scanner.Reader.{Span, Reader}

-- The messages, with the character that the message shows.
pub data Message : Type 0 where
  unterminated_single : Message
  unterminated_double : Message
  unterminated_escape : Message
  unknown_escape : ℕ → Message
  incomplete_unicode : Message
  invalid_hex_digit : ℕ → Message
  invalid_code_point : ℕ → Message
  document_marker : Message
  continuation_indent : Message
  comment_needs_whitespace : Message
  content_after_block_indicator : Message
  leading_empty_line : Message
  tab_indent : Message
  flow_under_indented : Message
  unclosed_flow : Message
  marker_in_flow : Message
  missing_comma : Message
  multiline_flow_key : Message
  bare_dash : Message
  reserved_indicator : ℕ → Message
  plain_comma : Message
  content_after_node : Message
  collection_on_marker_line : Message
  content_after_document_end : Message
  late_directive : Message
  too_deep : Message
  no_open_flow : ℕ → Message
  mismatched_flow : ℕ → Message
  multiline_collection_key : Message
  empty_flow_entry : Message
  sequence_on_key_line : Message
  entry_after_property : Message
  entry_past_sequence : Message
  multiline_key : Message
  property_under_indented : Message
  no_anchor_name : Message
  no_alias_name : Message
  unterminated_tag : Message
  empty_tag : Message
  control_character : ℕ → Message

pub data Scan {ℓ} (A : Type ℓ) : Type ℓ where
  ok : A → Scan A
  err : Message → Span → Scan A
  stuck : Scan A

infixl 5 ◌>>=◌ ◌>>◌
-- `?`
abbrev pub ◌>>=◌ {ℓ κ} : {A : Type ℓ} {B : Type κ} → Scan A → (A → Scan B) → Scan B
ok a >>= f = f a
err m s >>= f = err m s
stuck >>= f = stuck

abbrev pub ◌>>◌ {ℓ κ} : {A : Type ℓ} {B : Type κ} → Scan A → Scan B → Scan B
m >> k = m >>= λ _. k

abbrev pub map {ℓ κ} : {A : Type ℓ} {B : Type κ} → (A → B) → Scan A → Scan B
map f (ok a) = ok (f a)
map f (err m s) = err m s
map f stuck = stuck

pub data Step {ℓ κ} (S : Type ℓ) (A : Type κ) : Type (ℓ ⊔ κ) where
  done : Scan A → Step S A
  more : S → Step S A

abbrev pub next {ℓ κ} : {S : Type ℓ} {A : Type κ} → (S → Scan A) → Step S A → Scan A
next k (done a) = a
next k (more s) = k s

abbrev pub iterate {ℓ κ} : {S : Type ℓ} {A : Type κ} → (S → Step S A) → ℕ → S → Scan A
iterate step zero s = stuck
iterate step (suc fuel) s = next (iterate step fuel) (step s)

-- A value with a reader behind at most `n` characters, or an error: no loop ran out of fuel.
abbrev pub Within {ℓ} : {A : Type ℓ} → ℕ → Scan (A × Reader) → Type 0
Within n (ok (a, r)) = length r.rest ≤ n
Within n (err m s) = Unit
Within n stuck = ⊥

-- A step that ends the loop with a result, or goes on in a state of a size below `n`.
abbrev pub Lowers {ℓ κ} : {S : Type ℓ} {A : Type κ} → (S → ℕ) → ℕ → Step S (A × Reader) → Type 0
Lowers size n (done a) = Within n a
Lowers size n (more s) = size s < n

pub Within-≤ {ℓ} : {A : Type ℓ} {m n : ℕ} (a : Scan (A × Reader)) → m ≤ n → Within m a → Within n a
Within-≤ (ok (a, r)) h w = omega arith
Within-≤ (err m s) h w = tt
Within-≤ stuck h w = w

pub Lowers-≤ {ℓ κ} :
    {S : Type ℓ} {A : Type κ} (size : S → ℕ) {m n : ℕ} (t : Step S (A × Reader))
    → m ≤ n
    → Lowers size m t
    → Lowers size n t
Lowers-≤ size (done a) h l = Within-≤ a h l
Lowers-≤ size (more s) h l = omega arith

next-Within {ℓ κ} :
    {S : Type ℓ} {A : Type κ} (size : S → ℕ) (n : ℕ) (k : S → Scan (A × Reader))
    (t : Step S (A × Reader))
    → Lowers size n t
    → ((s : S) → size s < n → Within (size s) (k s))
    → Within n (next k t)
next-Within size n k (done a) l h = l
next-Within size n k (more s) l h = Within-≤ (k s) (omega arith) (h s l)

-- When every step lowers the size, fuel above the size is enough.
pub iterate-Within {ℓ κ} :
    {S : Type ℓ} {A : Type κ} (step : S → Step S (A × Reader)) (size : S → ℕ)
    → ((s : S) → Lowers size (size s) (step s))
    → (fuel : ℕ) (s : S) → size s < fuel
    → Within (size s) (iterate step fuel s)
iterate-Within step size lowers zero s h = absurd (omega arith)
iterate-Within step size lowers (suc fuel) s h =
    next-Within size (size s) (iterate step fuel) (step s) (lowers s)
      (λ s' l. iterate-Within step size lowers fuel s' (omega arith))

pub >>=-Within {ℓ κ} :
    {A : Type ℓ} {B : Type κ} (n : ℕ) (m : Scan (A × Reader)) (f : A × Reader → Scan (B × Reader))
    → Within n m
    → ((a : A) (r : Reader) → length r.rest ≤ n → Within n (f (a, r)))
    → Within n (m >>= f)
>>=-Within n (ok (a, r)) f w k = k a r w
>>=-Within n (err m s) f w k = tt
>>=-Within n stuck f w k = w
