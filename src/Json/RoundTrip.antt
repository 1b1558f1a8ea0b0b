-- ===== src/Json/RoundTrip.antt =====
-- What `serialize` writes, `parse` reads back (src/common/SimpleJson.cpp).
mod Tokens
pub mod Values
use multi_coder.Prelude.{
  ℕ, zero, suc, ◌+◌, ◌≤◌, ◌<◌, Bool, true, false, List, [], ◌∷◌, ◌++◌, ◌≡◌, ◌⊎◌, inl, inr, refl,
  sym, ◌∙◌, ap, arith, Bytes, length, length-append, Option, some, none, is_empty, if◌then◌else◌,
  append_assoc, append-nil, All, All-append, beq,
}
use multi_coder.Strings.{is_space, drop_while, trim}
use multi_coder.Strings.Laws.{is_empty-append_cons, trim_bracketed}
use multi_coder.Json.{
  Entry, Object, end, fault, member, escape, unescape, insert, scan_quoted, parse_value,
  parse_colon, parse_member, skip_separators, open_member, parse_members, parse, last_is,
  parse_trimmed, entry_text, serialize_from, serialize,
}
use multi_coder.Json.Order.{KeysBelow, KeysAbove, IsOrdered, insert_last}
use Tokens.{scan_quoted-escape, unescape-escape}
use Values.{IsToken, Delimits, comma, close, parse_colon-entry}

-- The values of the object are texts, or tokens that the scanner takes whole.
abbrev pub IsReadable : Object → Type 0
IsReadable o = All (λ e. IsToken e.1) o

-- The object goes on, or its brace closes it.
rest_shape :
    (m : Object)
    → (x : ℕ) × (rest : Bytes) × (serialize_from false m ++ b'}' ∷ [] ≡ x ∷ rest) × Delimits x rest
unfolding serialize_from
rest_shape [] = (b'}', [], refl, close)
rest_shape ((k, e) ∷ m) = (b',', _, refl, comma)

member_text :
    (k : Bytes) (e : Entry) (tail : Bytes)
    → (escape k ++ (b'"' ∷ b':' ∷ (entry_text e ++ tail))) ++ b'}' ∷ []
      ≡ escape k ++ (b'"' ∷ b':' ∷ (entry_text e ++ (tail ++ b'}' ∷ [])))
member_text k e tail = simp append_assoc

parse_member-serialize :
    (k : Bytes) (e : Entry) (m : Object)
    → IsToken e
    → parse_member
        (escape k ++ (b'"' ∷ b':' ∷ (entry_text e ++ (serialize_from false m ++ b'}' ∷ []))))
      ≡ some (k, e, serialize_from false m ++ b'}' ∷ [])
unfolding parse_member
parse_member-serialize k e m w =
    let (x, rest, shape, d) = rest_shape m in
    rw
      (
        scan_quoted-escape k (b':' ∷ (entry_text e ++ (serialize_from false m ++ b'}' ∷ []))),
        parse_member,
      )
      (unfold drop_while in rw shape (rw (parse_colon-entry e x rest w d) (rw (unescape-escape k))))

abbrev separated : Bool → Bytes → Bytes
separated first s = (if first then [] else b',' ∷ []) ++ s

open_member-quote :
    (first : Bool) (s : Bytes) (k : Bytes) (e : Entry) (rest : Bytes)
    → is_empty s ≡ false
    → parse_member s ≡ some (k, e, rest)
    → open_member (skip_separators (separated first (b'"' ∷ s))) ≡ member k e rest
unfolding open_member skip_separators
open_member-quote first s k e rest h p = ground arith

KeysBelow-snoc :
    (k : Bytes) (e : Entry) (acc m : Object)
    → All (λ x. KeysBelow x.0 acc) ((k, e) ∷ m)
    → KeysAbove k m
    → All (λ x. KeysBelow x.0 (acc ++ (k, e) ∷ [])) m
KeysBelow-snoc k e acc [] h a = tt
KeysBelow-snoc k e acc ((j, f) ∷ m) h a = (
  All-append (λ x. _) acc ((k, e) ∷ []) h.1.0 (a.0, tt),
  KeysBelow-snoc k e acc m (h.0, h.1.1) a.1,
)

opened :
    (first : Bool) (k : Bytes) (e : Entry) (m : Object)
    → IsToken e
    → open_member (skip_separators (serialize_from first ((k, e) ∷ m) ++ b'}' ∷ []))
      ≡ member k e (serialize_from false m ++ b'}' ∷ [])
unfolding serialize_from
opened true k e m w = rw (member_text k e (serialize_from false m)) (
    open_member-quote true _ k e _ (is_empty-append_cons (escape k) b'"' _)
      (parse_member-serialize k e m w))
opened false k e m w = rw (member_text k e (serialize_from false m)) (
    open_member-quote false _ k e _ (is_empty-append_cons (escape k) b'"' _)
      (parse_member-serialize k e m w))

parse_members-serialize :
    (m : Object) (fuel : ℕ) (first : Bool) (acc : Object)
    → length m < fuel
    → IsOrdered m
    → IsReadable m
    → All (λ x. KeysBelow x.0 acc) m
    → parse_members fuel (serialize_from first m ++ b'}' ∷ []) acc ≡ some (true, acc ++ m)
unfolding parse_members
parse_members-serialize m zero first acc f o w b = absurd (omega arith)
parse_members-serialize [] (suc fuel) first acc f o w b =
    unfold parse_members serialize_from open_member skip_separators in rw append-nil
parse_members-serialize ((k, e) ∷ m) (suc fuel) first acc f o w b =
    rw (opened first k e m w.0, parse_members)
      (rw (insert_last k e acc b.0) (
        parse_members-serialize m fuel false (acc ++ (k, e) ∷ []) (omega arith) o.1 w.1
          (KeysBelow-snoc k e acc m b o.0)
        ∙ ap (λ r. some (true, r)) (append_assoc acc ((k, e) ∷ []) m)))

length-serialize_from : (first : Bool) (m : Object) → length m ≤ length (serialize_from first m)
unfolding serialize_from
length-serialize_from first [] = omega arith
length-serialize_from true ((k, e) ∷ m) =
    omega (arith, length-serialize_from false m, length-append {0})
length-serialize_from false ((k, e) ∷ m) =
    omega (arith, length-serialize_from false m, length-append {0})

last_is-append : (b : ℕ) (s : Bytes) → last_is b (s ++ b ∷ []) ≡ true
unfolding last_is
last_is-append b [] = ground arith
last_is-append b (c ∷ s) = rw (is_empty-append_cons s b []) (last_is-append b s)

All-below_nil : (m : Object) → All (λ x. KeysBelow x.0 []) m
All-below_nil [] = tt
All-below_nil (x ∷ m) = (tt, All-below_nil m)

-- `parse` reads back what `serialize` writes, for every object with its keys in order whose
-- unquoted values are tokens; texts and keys may hold any bytes.
pub parse-serialize :
    (o : Object) → IsOrdered o → IsReadable o → parse (serialize o) ≡ some (true, o)
unfolding parse serialize
parse-serialize o h w =
    let s = serialize_from true o in
    rw (trim_bracketed b'{' s b'}' refl refl) (
      unfold parse_trimmed in
      rw (last_is-append b'}' s) (
        parse_members-serialize o (suc (length (s ++ b'}' ∷ []))) true []
          (omega (arith, length-serialize_from true o, length-append s (b'}' ∷ []))) h w
          (All-below_nil o)))
