-- ===== src/Client/Appended.antt =====
-- `parse_health_response` of custom_components/panel_assistant/client.py ignores tokens that a later
-- version of the panel appends.
use ha_paneld_home_assistant.Prelude.{
  ℕ, ◌≤◌, ◌≡◌, ◌≢◌, refl, sym, ap, subst, Bool, true, false, ◌&&◌, Option, none, some, List, [],
  ◌∷◌, ◌++◌, arith, ltb, leb, leb→le, le→leb, ◌==◌, length, length-append, Text, codes, text_eq,
  text_eq_iff, mem_text, any, chars_in, all, split_on, cons_head, Bool-cases, inl, inr,
  if◌then◌else◌, ◌>>=◌, Gives-bind, Gives-check, and-eq-true,
}
use ha_paneld_home_assistant.Client.Versions.{partition, is_version}
use ha_paneld_home_assistant.Client.Health.{
  PanelHealth, HealthFields, health_field, set_default, known_twice, known_health_fields,
  take_field, is_health_field_key, collect, health_of, parse_tokens, without_line_feed,
  is_printable_ascii, parse_health_response, max_version_length, max_health_response_bytes,
}

field-set_default :
    (key k v : Text) (fields : HealthFields)
    → text_eq k key ≡ false
    → health_field key (set_default k v fields) ≡ health_field key fields
unfolding health_field set_default
field-set_default key k v [] h = rw h
field-set_default key k v ((j, w) ∷ fields) h = elim (Bool-cases (text_eq j k)) [
  | inl same ↦ rw same
  | inr other ↦
      rw other (ap (λ x. if text_eq j key then some w else x) (field-set_default key k v fields h))
]

-- A key that is not known is none of the known ones.
module _ (k v : Text) (unknown : mem_text k known_health_fields ≡ false) where
  other_key : (key : Text) → mem_text key known_health_fields ≡ true → text_eq k key ≡ false
  other_key key h = elim (Bool-cases (text_eq k key)) [
    | inr other ↦ other
    | inl same ↦
        cc (subst (λ x. mem_text x known_health_fields ≡ true) (sym ((text_eq_iff k key).0 same)) h)
  ]

  kept :
      (key : Text) (fields : HealthFields)
      → mem_text key known_health_fields ≡ true
      → health_field key (set_default k v fields) ≡ health_field key fields
  kept key fields h = field-set_default key k v fields (other_key key h)

  health_of-set_default :
      (version : Text) (fields : HealthFields)
      → health_of version (set_default k v fields) ≡ health_of version fields
  unfolding health_of mem_text any text_eq
  health_of-set_default version fields = rw (
    kept (codes "panel") fields refl,
    kept (codes "build") fields refl,
    kept (codes "cfg") fields refl,
    kept (codes "did") fields refl,
    kept (codes "ha") fields refl,
    kept (codes "ha_src") fields refl,
    kept (codes "ha_refused") fields refl,
  )

regroup :
    {A B C : Type 0} (m : Option A) (f : A → Option B) (g : B → Option C) (h : A → Option C)
    → ((a : A) → h a ≡ (f a >>= g))
    → (m >>= h) ≡ ((m >>= f) >>= g)
regroup (some a) f g h e = e a
regroup none f g h e = refl

collect-append :
    (ts us : List Text) (fields : HealthFields)
    → collect (ts ++ us) fields ≡ (collect ts fields >>= λ more. collect us more)
unfolding collect
collect-append [] us fields = refl
collect-append (t ∷ ts) us fields =
    regroup (take_field (partition b'=' t).0 (partition b'=' t).1 fields) _ _ _
      λ more. collect-append ts us more

-- A token `k=v` of the shape of a field, under a key that is not known.
pub record IsUnknown (token k v : Text) : Type 0 where
  pub parts : partition b'=' token ≡ (k, some v)
  pub filled : ltb 0 (length v) ≡ true
  pub key : is_health_field_key k ≡ true
  pub unknown : mem_text k known_health_fields ≡ false

module _ (token k v : Text) (t : IsUnknown token k v) where
  collect-unknown :
      (fields : HealthFields) → collect (token ∷ []) fields ≡ some (set_default k v fields)
  unfolding collect take_field known_twice
  collect-unknown fields = rw (t.parts, t.filled, t.key, t.unknown)

  parse_tokens-append :
      (ts : List Text) (h : PanelHealth)
      → parse_tokens ts ≡ some h
      → parse_tokens (ts ++ (token ∷ [])) ≡ some h
  unfolding parse_tokens
  parse_tokens-append [] h e = cc
  parse_tokens-append (name ∷ []) h e = cc
  parse_tokens-append (name ∷ version ∷ rest) h e =
      Gives-check (λ x. parse_tokens (name ∷ version ∷ (rest ++ (token ∷ []))) ≡ some x)
        (leb 3 (length rest)) _
        (λ enough. Gives-check _ (text_eq name (codes "ha-paneld")) _ λ named.
          Gives-check _ (leb (length version) max_version_length && is_version version) _
            λ versioned. Gives-bind _ (collect rest []) _ λ fields collected. λ x found. rw (
              le→leb 3 (length (rest ++ (token ∷ [])))
                  (omega (arith, leb→le _ _ enough, length-append rest (token ∷ []))),
              named,
              versioned,
              collect-append rest (token ∷ []) [],
              collected,
              collect-unknown fields,
              health_of-set_default k v t.unknown version fields,
              found,
            ))
        h e

cons_head-append :
    (c : ℕ) (ws vs : List Text) → ws ≢ [] → cons_head c (ws ++ vs) ≡ cons_head c ws ++ vs
unfolding cons_head
cons_head-append c [] vs h = absurd (h refl)
cons_head-append c (w ∷ ws) vs h = refl

cons_head-filled : (c : ℕ) (ws : List Text) → cons_head c ws ≢ []
unfolding cons_head
cons_head-filled c [] = λ e. cc
cons_head-filled c (w ∷ ws) = λ e. cc

split_on-filled : (sep : ℕ) (s : Text) → split_on sep s ≢ []
unfolding split_on
split_on-filled sep [] = λ e. cc
split_on-filled sep (c ∷ s) = elim (Bool-cases (c == sep)) [
  | inl same ↦ rw same (λ e. cc)
  | inr other ↦ rw other (cons_head-filled c (split_on sep s))
]

-- `split` at a separator that stands between two texts.
split_on-append :
    (sep : ℕ) (s t : Text) → split_on sep (s ++ (sep ∷ t)) ≡ split_on sep s ++ split_on sep t
unfolding split_on
split_on-append sep [] t = ground arith
split_on-append sep (c ∷ s) t = elim (Bool-cases (c == sep)) [
  | inl same ↦ rw same (ap (λ x. [] ∷ x) (split_on-append sep s t))
  | inr other ↦
      rw (other, split_on-append sep s t)
        (cons_head-append c (split_on sep s) (split_on sep t) (split_on-filled sep s))
]

-- Printable and no space.
abbrev pub is_token_char : ℕ → Bool
is_token_char c = leb b'!' c && leb c b'~'

not_space : (c : ℕ) → is_token_char c ≡ true → (c == b' ') ≡ false
not_space c h = ground arith

split_on-token : (t : Text) → chars_in is_token_char t ≡ true → split_on b' ' t ≡ t ∷ []
unfolding split_on chars_in all cons_head
split_on-token [] h = refl
split_on-token (c ∷ t) h =
    let (printable, rest) = and-eq-true (is_token_char c) _ h in
    rw (not_space c printable, split_on-token t rest)

printable-without_line_feed :
    (s : Text) → chars_in is_printable_ascii s ≡ true → without_line_feed s ≡ s
unfolding chars_in all is_printable_ascii without_line_feed
printable-without_line_feed [] h = refl
printable-without_line_feed (c ∷ []) h = ground arith
printable-without_line_feed (c ∷ d ∷ s) h =
    ap (λ x. c ∷ x) (printable-without_line_feed (d ∷ s) (and-eq-true (is_printable_ascii c) _ h).1)

printable_token :
    (t : Text) → chars_in is_token_char t ≡ true → chars_in is_printable_ascii t ≡ true
unfolding chars_in all is_printable_ascii
printable_token [] h = refl
printable_token (c ∷ t) h = ground (arith, printable_token t)

printable-append :
    (s t : Text)
    → chars_in is_printable_ascii s ≡ true
    → chars_in is_token_char t ≡ true
    → chars_in is_printable_ascii (s ++ (b' ' ∷ t)) ≡ true
unfolding chars_in all is_printable_ascii
printable-append [] t hs ht = printable_token t ht
printable-append (c ∷ s) t hs ht = ground (arith, printable-append s t)

parsed :
    (line : Text) (h : PanelHealth)
    → chars_in is_printable_ascii line ≡ true
    → parse_health_response line ≡ some h
    → parse_tokens (split_on b' ' line) ≡ some h
unfolding parse_health_response
parsed line h printable e =
    subst (λ s. parse_tokens (split_on b' ' s) ≡ some h)
      (printable-without_line_feed line printable)
      (Gives-check (λ x. parse_tokens (split_on b' ' (without_line_feed line)) ≡ some x)
        (leb (length line) max_health_response_bytes) _
        (λ small.
          Gives-check _ (chars_in is_printable_ascii (without_line_feed line)) _ λ p x found. found)
        h e)

-- A line of printable ASCII characters without a line feed that is accepted is accepted with the same
-- result when a space and one more token follow, if the token is printable without a space and reads
-- `k=v`, where `k` is a small letter and then small letters, digits and underscores and is none of
-- the keys that the client knows, and `v` is not empty, and if the line stays within 512 bytes.
pub parse_health_response-append :
    (line token k v : Text) (h : PanelHealth)
    → IsUnknown token k v
    → chars_in is_token_char token ≡ true
    → chars_in is_printable_ascii line ≡ true
    → length (line ++ (b' ' ∷ token)) ≤ max_health_response_bytes
    → parse_health_response line ≡ some h
    → parse_health_response (line ++ (b' ' ∷ token)) ≡ some h
unfolding parse_health_response
parse_health_response-append line token k v h t plain printable short e =
    let longer = printable-append line token printable plain in
    rw
      (
        le→leb _ _ short,
        printable-without_line_feed (line ++ (b' ' ∷ token)) longer,
        longer,
        split_on-append b' ' line token,
        split_on-token token plain,
      )
      (parse_tokens-append token k v t (split_on b' ' line) h (parsed line h printable e))
