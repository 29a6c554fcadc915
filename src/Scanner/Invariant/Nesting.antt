-- ===== src/Scanner/Invariant/Nesting.antt =====
-- How tokens nest: the number of open block collections, and the kinds of the open flow collections.
use yamlrocks.Common.{
  ℕ, zero, suc, Bool, true, false, Option, none, some, [], ◌∷◌, ◌++◌, List, all, ◌>>=◌, ◌≡◌, refl,
  sym, ap, ◌∙◌, >>=-eq-some, append_assoc, and_parts, inl, inr, Option-cases, Ensures, Ensures-bind,
  Ensures-elim, Ensures-map,
}
use yamlrocks.Scanner.Token.{
  TokenKind, Token, stream_end, block_mapping_start, block_sequence_start, block_end, block_entry,
  flow_mapping_start, flow_mapping_end, flow_sequence_start, flow_sequence_end, flow_entry,
  stream_start, document_start, document_end, directive, key, value, scalar, anchor, alias, tag,
}

abbrev pub Nest : Type 0
Nest = ℕ × List Bool

-- A block collection neither starts, goes on nor ends inside a flow collection; a closing bracket
-- closes the innermost flow collection, of its own kind; a comma stands inside one; the stream ends
-- outside of every collection.
abbrev pub after : TokenKind → Nest → Option Nest
after stream_end (zero, []) = some (zero, [])
after stream_end _ = none
after block_mapping_start (n, []) = some (suc n, [])
after block_mapping_start (n, b ∷ bs) = none
after block_sequence_start (n, []) = some (suc n, [])
after block_sequence_start (n, b ∷ bs) = none
after block_end (suc n, []) = some (n, [])
after block_end _ = none
after block_entry (suc n, []) = some (suc n, [])
after block_entry _ = none
after flow_mapping_start (n, bs) = some (n, true ∷ bs)
after flow_sequence_start (n, bs) = some (n, false ∷ bs)
after flow_mapping_end (n, true ∷ bs) = some (n, bs)
after flow_mapping_end _ = none
after flow_sequence_end (n, false ∷ bs) = some (n, bs)
after flow_sequence_end _ = none
after flow_entry (n, b ∷ bs) = some (n, b ∷ bs)
after flow_entry (n, []) = none
after _ a = some a

-- The nesting behind a list of tokens, if they nest.
abbrev pub nesting : Nest → List Token → Option Nest
nesting a [] = some a
nesting a (t ∷ ts) = after t.kind a >>= λ b. nesting b ts

pub nesting-append :
    (a : Nest) (xs ys : List Token) → nesting a (xs ++ ys) ≡ (nesting a xs >>= λ b. nesting b ys)
nesting-append a [] ys = refl
nesting-append a (x ∷ xs) ys = elim (Option-cases (after x.kind a)) [
  | inl h ↦ rw (h) refl
  | inr (b, h) ↦ rw (h) (nesting-append b xs ys)
]

-- A prefix of tokens that nest nests.
pub nesting-prefix :
    (a : Nest) {c : Nest} (xs ys : List Token)
    → nesting a (xs ++ ys) ≡ some c
    → (b : Nest) × (nesting a xs ≡ some b) × (nesting b ys ≡ some c)
nesting-prefix a [] ys h = (a, refl, h)
nesting-prefix a (x ∷ xs) ys h =
    let (b, e, k) = >>=-eq-some (after x.kind a) (λ b. nesting b (xs ++ ys)) h in
    let (d, l, m) = nesting-prefix b xs ys k in (d, rw (e) l, m)

pub nesting-push :
    (a : Nest) {b c : Nest} (e ts : List Token) (t : Token)
    → nesting a (e ++ ts) ≡ some b
    → after t.kind b ≡ some c
    → nesting a (e ++ (ts ++ t ∷ [])) ≡ some c
nesting-push a e ts t h k =
    ap (nesting a) (sym (append_assoc e ts (t ∷ [])))
    ∙ (nesting-append a (e ++ ts) (t ∷ []) ∙ rw (h, k) refl)

abbrev pub is_inner : TokenKind → Bool
is_inner stream_end = false
is_inner _ = true

-- A token inside a stream may stand a block level deeper.
after-suc :
    (k : TokenKind) (n : ℕ) (bs : List Bool)
    → is_inner k ≡ true
    → Ensures (λ b. after k (suc n, bs) ≡ some (suc b.0, b.1)) (after k (n, bs))
after-suc stream_start n bs i = refl
after-suc stream_end n bs i = cc
after-suc document_start n bs i = refl
after-suc document_end n bs i = refl
after-suc (directive t) n bs i = refl
after-suc block_mapping_start n [] i = refl
after-suc block_mapping_start n (b ∷ bs) i = tt
after-suc block_sequence_start n [] i = refl
after-suc block_sequence_start n (b ∷ bs) i = tt
after-suc block_end zero bs i = tt
after-suc block_end (suc n) [] i = refl
after-suc block_end (suc n) (b ∷ bs) i = tt
after-suc block_entry zero bs i = tt
after-suc block_entry (suc n) [] i = refl
after-suc block_entry (suc n) (b ∷ bs) i = tt
after-suc flow_mapping_start n bs i = refl
after-suc flow_mapping_end n [] i = tt
after-suc flow_mapping_end n (true ∷ bs) i = refl
after-suc flow_mapping_end n (false ∷ bs) i = tt
after-suc flow_sequence_start n bs i = refl
after-suc flow_sequence_end n [] i = tt
after-suc flow_sequence_end n (true ∷ bs) i = tt
after-suc flow_sequence_end n (false ∷ bs) i = refl
after-suc flow_entry n [] i = tt
after-suc flow_entry n (b ∷ bs) i = refl
after-suc (key b) n bs i = refl
after-suc value n bs i = refl
after-suc (scalar c s) n bs i = refl
after-suc (anchor t) n bs i = refl
after-suc (alias t) n bs i = refl
after-suc (tag t) n bs i = refl

pub nesting-suc :
    (n : ℕ) (bs : List Bool) (ts : List Token)
    → all (λ t. is_inner t.kind) ts ≡ true
    → Ensures (λ b. nesting (suc n, bs) ts ≡ some (suc b.0, b.1)) (nesting (n, bs) ts)
nesting-suc n bs [] i = refl
nesting-suc n bs (t ∷ ts) i =
    let (first, rest) = and_parts (is_inner t.kind) (all (λ t. is_inner t.kind) ts) i in
    Ensures-bind (λ b. nesting (suc n, bs) (t ∷ ts) ≡ some (suc b.0, b.1)) (after t.kind (n, bs))
      (λ b. nesting b ts)
      (λ b e.
        Ensures-map (nesting b ts) (λ c h. rw (Ensures-elim _ _ (after-suc t.kind n bs first) e) h)
          (nesting-suc b.0 b.1 ts rest))
