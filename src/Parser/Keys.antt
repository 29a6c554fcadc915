-- ===== src/Parser/Keys.antt =====
-- Which keys `block_collection_key_span` reports.
use yamlrocks.Common.{
  ℕ, Bool, true, false, Bool-cases, false-ne-true, none-ne-some, some, [], ◌∷◌, ◌++◌, List, drop,
  ◌≡◌, ◌↔◌, ap, refl, sym, ◌∙◌, inl, inr,
}
use yamlrocks.Scanner.Reader.{Span}
use yamlrocks.Parser.{
  EventKind, Event, stream_start, stream_end, document_start, document_end, mapping_start,
  sequence_start, mapping_end, sequence_end, block_end, key, value, sequence_entry, flow_entry,
  scalar, anchor, alias, tag, directive, is_property, starts_block_collection, node_span,
  block_collection_key_span,
}

-- The properties that may stand in front of a node
pub data IsNodeProperty : EventKind → Type 0 where
  anchored : {name : List ℕ} → IsNodeProperty (anchor name)
  tagged : {text : List ℕ} → IsNodeProperty (tag text)

pub data IsBlockStart : EventKind → Type 0 where
  block_mapping : IsBlockStart (mapping_start false)
  block_sequence : IsBlockStart (sequence_start false)
  block_entry : IsBlockStart sequence_entry

abbrev pub AllProperties : List Event → Type 0
AllProperties [] = Unit
AllProperties (e ∷ es) = IsNodeProperty e.kind × AllProperties es

-- The events are properties, and then the start of a block collection at the span.
pub record StartsAt (es : List Event) (span : Span) : Type 0 where
  pub properties : List Event
  pub start : Event
  pub rest : List Event
  pub events_are : es ≡ properties ++ start ∷ rest
  pub all_properties : AllProperties properties
  pub block_start : IsBlockStart start.kind
  pub at_span : start.span ≡ span

is_property-IsNodeProperty : (k : EventKind) → is_property k ≡ true → IsNodeProperty k
is_property-IsNodeProperty stream_start h = absurd (false-ne-true h)
is_property-IsNodeProperty stream_end h = absurd (false-ne-true h)
is_property-IsNodeProperty document_start h = absurd (false-ne-true h)
is_property-IsNodeProperty document_end h = absurd (false-ne-true h)
is_property-IsNodeProperty (mapping_start b) h = absurd (false-ne-true h)
is_property-IsNodeProperty (sequence_start b) h = absurd (false-ne-true h)
is_property-IsNodeProperty mapping_end h = absurd (false-ne-true h)
is_property-IsNodeProperty sequence_end h = absurd (false-ne-true h)
is_property-IsNodeProperty block_end h = absurd (false-ne-true h)
is_property-IsNodeProperty (key b) h = absurd (false-ne-true h)
is_property-IsNodeProperty value h = absurd (false-ne-true h)
is_property-IsNodeProperty sequence_entry h = absurd (false-ne-true h)
is_property-IsNodeProperty flow_entry h = absurd (false-ne-true h)
is_property-IsNodeProperty (scalar c s) h = absurd (false-ne-true h)
is_property-IsNodeProperty (anchor n) h = anchored
is_property-IsNodeProperty (alias n) h = absurd (false-ne-true h)
is_property-IsNodeProperty (tag n) h = tagged
is_property-IsNodeProperty (directive n) h = absurd (false-ne-true h)

IsNodeProperty-is_property : {k : EventKind} → IsNodeProperty k → is_property k ≡ true
IsNodeProperty-is_property anchored = refl
IsNodeProperty-is_property tagged = refl

starts-IsBlockStart : (k : EventKind) → starts_block_collection k ≡ true → IsBlockStart k
starts-IsBlockStart stream_start h = absurd (false-ne-true h)
starts-IsBlockStart stream_end h = absurd (false-ne-true h)
starts-IsBlockStart document_start h = absurd (false-ne-true h)
starts-IsBlockStart document_end h = absurd (false-ne-true h)
starts-IsBlockStart (mapping_start true) h = absurd (false-ne-true h)
starts-IsBlockStart (mapping_start false) h = block_mapping
starts-IsBlockStart (sequence_start true) h = absurd (false-ne-true h)
starts-IsBlockStart (sequence_start false) h = block_sequence
starts-IsBlockStart mapping_end h = absurd (false-ne-true h)
starts-IsBlockStart sequence_end h = absurd (false-ne-true h)
starts-IsBlockStart block_end h = absurd (false-ne-true h)
starts-IsBlockStart (key b) h = absurd (false-ne-true h)
starts-IsBlockStart value h = absurd (false-ne-true h)
starts-IsBlockStart sequence_entry h = block_entry
starts-IsBlockStart flow_entry h = absurd (false-ne-true h)
starts-IsBlockStart (scalar c s) h = absurd (false-ne-true h)
starts-IsBlockStart (anchor n) h = absurd (false-ne-true h)
starts-IsBlockStart (alias n) h = absurd (false-ne-true h)
starts-IsBlockStart (tag n) h = absurd (false-ne-true h)
starts-IsBlockStart (directive n) h = absurd (false-ne-true h)

IsBlockStart-starts :
    {k : EventKind} → IsBlockStart k → (is_property k ≡ false) × (starts_block_collection k ≡ true)
IsBlockStart-starts block_mapping = (refl, refl)
IsBlockStart-starts block_sequence = (refl, refl)
IsBlockStart-starts block_entry = (refl, refl)

StartsAt-cons :
    (e : Event) (es : List Event) (span : Span)
    → IsNodeProperty e.kind
    → StartsAt es span
    → StartsAt (e ∷ es) span
StartsAt-cons e es span p s = record {
  properties = e ∷ s.properties;
  start = s.start;
  rest = s.rest;
  events_are = ap (λ t. e ∷ t) s.events_are;
  all_properties = (p, s.all_properties);
  block_start = s.block_start;
  at_span = s.at_span;
}

node_span-StartsAt : (es : List Event) (span : Span) → node_span es ≡ some span → StartsAt es span
unfolding node_span
node_span-StartsAt [] span h = absurd (none-ne-some h)
node_span-StartsAt (e ∷ es) span h = elim (Bool-cases (is_property e.kind)) [
  | inl p ↦
      StartsAt-cons e es span (is_property-IsNodeProperty e.kind p)
        (node_span-StartsAt es span (rw (p) at h))
  | inr p ↦ elim (Bool-cases (starts_block_collection e.kind)) [
    | inl b ↦ record {
      properties = [];
      start = e;
      rest = es;
      events_are = refl;
      all_properties = tt;
      block_start = starts-IsBlockStart e.kind b;
      at_span = (let q : some e.span ≡ some span = rw (p, b) at h in cc);
    }
    | inr b ↦ absurd (none-ne-some (rw (p, b) at h))
  ]
]

node_span-properties :
    (ps : List Event) (e : Event) (rest : List Event)
    → AllProperties ps
    → IsBlockStart e.kind
    → node_span (ps ++ e ∷ rest) ≡ some e.span
unfolding node_span
node_span-properties [] e rest a b = let (n, s) = IsBlockStart-starts b in rw (n, s) refl
node_span-properties (p ∷ ps) e rest (q, a) b =
    rw (IsNodeProperty-is_property q) (node_span-properties ps e rest a b)

-- A span is reported for the key at a position just when the key stands outside of flow mappings, and
-- the events from there are anchors and tags, any number of them, and then the start of a block
-- mapping, the start of a block sequence or an entry of one, which has this span.
pub block_collection_key_span_iff :
    (events : List Event) (start : ℕ) (flow : Bool) (span : Span)
    → (block_collection_key_span events start flow ≡ some span)
      ↔ ((flow ≡ false) × StartsAt (drop start events) span)
unfolding block_collection_key_span
block_collection_key_span_iff events start true span =
    (λ h. absurd (none-ne-some h), λ h. absurd (false-ne-true (sym h.0)))
block_collection_key_span_iff events start false span = (
  λ h. (refl, node_span-StartsAt (drop start events) span h),
  λ h.
      let s = h.1 in
      ap node_span s.events_are
      ∙ (node_span-properties s.properties s.start s.rest s.all_properties s.block_start
          ∙ ap some s.at_span),
)
