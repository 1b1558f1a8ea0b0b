-- ===== src/Formatting/Template.antt =====
-- What a template becomes (src/worker/worker.cpp, `applyMetaTemplate`).
use multi_coder.Prelude.{
  ℕ, zero, suc, sym, beq_comm, is_empty, ◌||◌, Option, none, if◌then◌else◌, ◌≤◌, false, List, [],
  ◌∷◌, ◌++◌, ◌≡◌, refl, ap, ◌∙◌, some, Bytes, codes, drop, length, find_byte, arith, ◌==◌,
  Option-cases, inl, inr, All, length-append, take-append,
}
use multi_coder.Prelude.Map.{Map, get}
use multi_coder.Strings.Lines.{has_byte}
use multi_coder.Formatting.{
  Common, common_value, expanded, template_from, token_value, apply_meta_template,
  field_value_with_aliases,
}

pub data Piece : Type 0 where
  literal : Bytes → Piece
  field : Bytes → Piece

abbrev pub render : List Piece → Bytes
render [] = []
render (literal s ∷ ps) = s ++ render ps
render (field key ∷ ps) = b'{' ∷ (key ++ b'}' ∷ render ps)

-- What stands for a field, by its key and its value: the value where both are there, else the field
-- as it was.
abbrev pub shown : Bytes → Bytes → Bytes
shown (k ∷ key) (v ∷ value) = v ∷ value
shown [] value = codes "{}"
shown (k ∷ key) [] = b'{' ∷ k ∷ (key ++ b'}' ∷ [])

-- Each field as it is shown, and the literals as they are.
unfoldable pub fill : (Bytes → Bytes) → List Piece → Bytes
fill value [] = []
fill value (literal s ∷ ps) = s ++ fill value ps
fill value (field key ∷ ps) = shown key (value key) ++ fill value ps

-- The members of a payload that may stand for a token by their names.
abbrev pub common_fields : Common → Map Bytes
common_fields c =
    (codes "artist", c.artist)
    ∷ (codes "title", c.title)
    ∷ (codes "duration", c.duration)
    ∷ (codes "stationId", c.station_id)
    ∷ []

abbrev first_text : Bytes → Option Bytes → Bytes
first_text (v ∷ value) o = v ∷ value
first_text [] none = []
first_text [] (some value) = value

-- The value of the field in the block, where there is a block and it has one, else the member.
abbrev pub value_of : Common → Bytes → Bytes → Bytes
value_of c [] key = first_text [] (get key (common_fields c))
value_of c (b ∷ block) key =
    first_text (field_value_with_aliases (b ∷ block) key c.station_id) (get key (common_fields c))

shown_lem :
    (key value : Bytes)
    → (if is_empty key || is_empty value then b'{' ∷ (key ++ b'}' ∷ []) else value)
      ≡ shown key value
shown_lem [] value = refl
shown_lem (k ∷ key) [] = refl
shown_lem (k ∷ key) (v ∷ value) = refl

expanded-shown : (value : Bytes → Bytes) (key : Bytes) → expanded value key ≡ shown key (value key)
unfolding expanded
expanded-shown value key = shown_lem key (value key)

common-get :
    (c : Common) (key : Bytes) → first_text [] (get key (common_fields c)) ≡ common_value c key
unfolding get common_value
common-get c key =
    rw
      (
        beq_comm (codes "artist") key,
        beq_comm (codes "title") key,
        beq_comm (codes "duration") key,
        beq_comm (codes "stationId") key,
      )
      (ground arith)

first_text-or :
    (v value : Bytes) (o : Option Bytes)
    → first_text [] o ≡ value
    → (if is_empty v then value else v) ≡ first_text v o
first_text-or [] value o h = sym h
first_text-or (x ∷ v) value o h = refl

token-value_of : (c : Common) (block key : Bytes) → token_value c block key ≡ value_of c block key
unfolding token_value
token-value_of c [] key = sym (common-get c key)
token-value_of c (b ∷ block) key =
    first_text-or (field_value_with_aliases (b ∷ block) key c.station_id) (common_value c key)
      (get key (common_fields c)) (common-get c key)

fill_same :
    (f g : Bytes → Bytes) (ps : List Piece)
    → ((key : Bytes) → f key ≡ g key)
    → fill f ps ≡ fill g ps
unfolding fill
fill_same f g [] h = refl
fill_same f g (literal s ∷ ps) h = ap (λ t. s ++ t) (fill_same f g ps h)
fill_same f g (field key ∷ ps) h =
    rw (h key) (ap (λ t. shown key (g key) ++ t) (fill_same f g ps h))

-- A literal opens no brace, and a key closes none.
abbrev pub IsPiece : Piece → Type 0
IsPiece (literal s) = has_byte b'{' s ≡ false
IsPiece (field key) = has_byte b'}' key ≡ false

abbrev fields : List Piece → ℕ
fields [] = 0
fields (literal s ∷ ps) = fields ps
fields (field key ∷ ps) = suc (fields ps)

fields-le-length : (ps : List Piece) → fields ps ≤ length (render ps)
fields-le-length [] = omega arith
fields-le-length (literal s ∷ ps) = omega (arith, fields-le-length ps, length-append s (render ps))
fields-le-length (field key ∷ ps) =
    omega (arith, fields-le-length ps, length-append key (b'}' ∷ render ps))

template_byte :
    (value : Bytes → Bytes) (fuel c : ℕ) (s : Bytes)
    → (c == b'{') ≡ false
    → template_from fuel value (c ∷ s) ≡ c ∷ template_from fuel value s
unfolding template_from find_byte
template_byte value zero c s e = refl
template_byte value (suc fuel) c s e = elim (Option-cases (find_byte b'{' s)) [
  | inl n ↦ rw (e, n, template_from, find_byte) refl
  | inr (o, n) ↦ elim (Option-cases (find_byte b'}' (drop (suc o) s))) [
    | inl m ↦ rw (e, n, m, template_from, find_byte) refl
    | inr (p, m) ↦ rw (e, n, m, template_from, find_byte) refl
  ]
]

template_literal :
    (value : Bytes → Bytes) (fuel : ℕ) (lit s : Bytes)
    → has_byte b'{' lit ≡ false
    → template_from fuel value (lit ++ s) ≡ lit ++ template_from fuel value s
unfolding has_byte
template_literal value fuel [] s h = refl
template_literal value fuel (c ∷ lit) s h =
    template_byte value fuel c (lit ++ s) (ground arith)
    ∙ ap (λ t. c ∷ t) (template_literal value fuel lit s (ground arith))

find_byte-append :
    (c : ℕ) (k s : Bytes) → has_byte c k ≡ false → find_byte c (k ++ c ∷ s) ≡ some (length k)
unfolding find_byte has_byte
find_byte-append c [] s h = ground arith
find_byte-append c (x ∷ k) s h =
    let rest = find_byte-append c k s (ground arith) in
    let other : (x == c) ≡ false = ground arith in rw (other, rest) refl

drop-append_cons : (c : ℕ) (k s : Bytes) → drop (suc (length k)) (k ++ c ∷ s) ≡ s
drop-append_cons c [] s = refl
drop-append_cons c (x ∷ k) s = drop-append_cons c k s

template_field :
    (value : Bytes → Bytes) (fuel : ℕ) (key s : Bytes)
    → has_byte b'}' key ≡ false
    → template_from (suc fuel) value (b'{' ∷ (key ++ b'}' ∷ s))
      ≡ expanded value key ++ template_from fuel value s
unfolding template_from find_byte
template_field value fuel key s h =
    rw (find_byte-append b'}' key s h, template_from, find_byte)
      (rw (take-append key (b'}' ∷ s), drop-append_cons b'}' key s) refl)

template_from-render :
    (value : Bytes → Bytes) (ps : List Piece) (fuel : ℕ)
    → fields ps ≤ fuel
    → All IsPiece ps
    → template_from fuel value (render ps) ≡ fill value ps
unfolding fill
template_from-render value [] zero le h = unfold template_from in refl
template_from-render value [] (suc fuel) le h = unfold template_from find_byte in refl
template_from-render value (literal s ∷ ps) fuel le h =
    template_literal value fuel s (render ps) h.0
    ∙ ap (λ t. s ++ t) (template_from-render value ps fuel le h.1)
template_from-render value (field key ∷ ps) zero le h = absurd (omega arith)
template_from-render value (field key ∷ ps) (suc fuel) le h =
    template_field value fuel key (render ps) h.0
    ∙ rw (expanded-shown value key) (
        ap (λ t. shown key (value key) ++ t) (template_from-render value ps fuel (omega arith) h.1))

-- A template of literals without an opening brace and fields whose keys have no closing one
-- becomes the literals and the values of the fields, in order. The value of a field is the one that
-- the block has for it, else the artist, title, duration or station id of its name; a field without
-- a key or a value stays as it is, and no value is expanded again.
pub apply_meta_template-render :
    (ps : List Piece) (c : Common) (xml_block : Bytes)
    → All IsPiece ps
    → apply_meta_template (render ps) c xml_block ≡ fill (value_of c xml_block) ps
unfolding apply_meta_template
apply_meta_template-render ps c xml_block h =
    template_from-render (token_value c xml_block) ps (length (render ps)) (fields-le-length ps) h
    ∙ fill_same (token_value c xml_block) (value_of c xml_block) ps (token-value_of c xml_block)
