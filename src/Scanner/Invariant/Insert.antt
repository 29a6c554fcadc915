-- ===== src/Scanner/Invariant/Insert.antt =====
-- The retroactive insertion of a key (`fetch_value`): it neither panics nor breaks the nesting.
use yamlrocks.Common.{
  suc, false, Bool-cases, none, some, [], ◌∷◌, ◌++◌, List, length, ◌≡◌, refl, sym, ap, subst, ◌∙◌,
  inl, inr, append_assoc, Ensures-elim,
}
use yamlrocks.Common.Int.{pos, less}
use yamlrocks.Scanner.Reader.{Span}
use yamlrocks.Scanner.Outcome.{ok, map}
use yamlrocks.Scanner.Token.{Token, block_mapping_start, key, token}
use yamlrocks.Scanner.State.{Scanner, SimpleKey}
use yamlrocks.Scanner.Fetch.Indent.{open_level}
use yamlrocks.Scanner.Fetch.Entry.{insert, insert_key}
use yamlrocks.Scanner.Invariant.Nesting.{Nest, nesting, nesting-append, nesting-suc}
use yamlrocks.Scanner.Invariant.Live.{core, KeyAt, Live}
use yamlrocks.Scanner.Invariant.Reaches.{Reaches}

insert-append :
    (t : Token) (pre post : List Token) → insert (length pre) t (pre ++ post) ≡ ok (pre ++ t ∷ post)
insert-append t [] post = refl
insert-append t (x ∷ pre) post = ap (map (λ ts. x ∷ ts)) (insert-append t pre post)

insert-behind :
    (t u : Token) (pre post : List Token)
    → insert (suc (length pre)) u (pre ++ t ∷ post) ≡ ok (pre ++ t ∷ u ∷ post)
insert-behind t u [] post = refl
insert-behind t u (x ∷ pre) post = ap (map (λ ts. x ∷ ts)) (insert-behind t u pre post)

-- What stands behind the place of the insertion nests from there.
nesting-behind :
    (e pre post : List Token) (a b : Nest)
    → nesting (0, []) (e ++ pre) ≡ some a
    → nesting (0, []) (e ++ (pre ++ post)) ≡ some b
    → nesting a post ≡ some b
nesting-behind e pre post a b h k =
    sym (nesting-append (0, []) (e ++ pre) post ∙ rw (h) refl)
    ∙ (ap (nesting (0, [])) (append_assoc e pre post) ∙ k)

-- Tokens between the two parts.
nesting-between :
    (e pre new post : List Token) (a b c : Nest)
    → nesting (0, []) (e ++ pre) ≡ some a
    → nesting a new ≡ some b
    → nesting b post ≡ some c
    → nesting (0, []) (e ++ (pre ++ (new ++ post))) ≡ some c
nesting-between e pre new post a b c h k l =
    ap (nesting (0, [])) (sym (append_assoc e pre (new ++ post)))
    ∙ (nesting-append (0, []) (e ++ pre) (new ++ post) ∙ rw (h, nesting-append a new post, k) l)

pub insert_key-Live :
    (e : List Token) (k : SimpleKey) (span : Span) (s : Scanner)
    → s.flow_kinds ≡ []
    → KeyAt e s.tokens (some k)
    → s.simple_key ≡ none
    → Live e (core s)
    → Reaches
        (λ s'. Live e (core s') × (s'.reader ≡ s.reader) × (s'.flow_level ≡ s.flow_level))
        (insert_key k span s)
unfolding insert_key open_level
insert_key-Live e k span s f (pre, post, n, ts, i, p, inner) none_yet h =
    let b : nesting (n, []) post ≡ some (length s.indent_stack, s.flow_kinds) =
      nesting-behind e pre post (n, []) _ p
        (ap (λ t. nesting (0, []) (e ++ t)) (sym ts) ∙ h.nested) in
    let deeper : nesting (suc n, []) post ≡ some (suc (length s.indent_stack), s.flow_kinds) =
      Ensures-elim (λ b. nesting (suc n, []) post ≡ some (suc b.0, b.1)) (nesting (n, []) post)
        (nesting-suc n [] post inner) b in
    let start = token block_mapping_start span in
    let marker = token (key false) span in
    elim (Bool-cases (less s.current_indent (pos k.column))) [
      | inl l ↦
          rw (l, sym i, ts, insert-append start pre post, insert-behind start marker pre post)
            (
              record {
                nested =
                    nesting-between e pre (start ∷ marker ∷ []) post (n, []) (suc n, []) _ p refl
                      deeper;
                level = h.level;
                bounded = h.bounded;
                levels = (l, h.levels);
                key = subst (KeyAt e _) (sym none_yet) tt;
                running = h.running;
              },
              refl,
              refl,
            )
      | inr l ↦
          rw (l, sym i, ts, insert-append marker pre post)
            (
              record {
                nested = nesting-between e pre (marker ∷ []) post (n, []) (n, []) _ p refl b;
                level = h.level;
                bounded = h.bounded;
                levels = h.levels;
                key = subst (KeyAt e _) (sym none_yet) tt;
                running = h.running;
              },
              refl,
              refl,
            )
    ]
