-- ===== src/Json/Order.antt =====
-- The order of the keys in `values_` (`std::map` of src/include/SimpleJson.h).
use multi_coder.Prelude.{
  true, false, [], ◌∷◌, ◌++◌, ◌≡◌, inl, inr, refl, arith, Bytes, beq, beq_iff, All, Bool-cases,
  if◌then◌else◌, some,
}
use multi_coder.Json.{Entry, Object, bytes_lt, insert, lookup}

pub bytes_lt_trans :
    (a b c : Bytes) → bytes_lt a b ≡ true → bytes_lt b c ≡ true → bytes_lt a c ≡ true
unfolding bytes_lt
bytes_lt_trans (x ∷ a) (y ∷ b) (z ∷ c) h k = ground (arith, bytes_lt_trans a b c)
bytes_lt_trans [] (y ∷ b) (z ∷ c) h k = refl
bytes_lt_trans _ _ _ h k = cc

pub bytes_lt-asymm : (a b : Bytes) → bytes_lt a b ≡ true → bytes_lt b a ≡ false
unfolding bytes_lt
bytes_lt-asymm (x ∷ a) (y ∷ b) h = ground (arith, bytes_lt-asymm a b)
bytes_lt-asymm [] (y ∷ b) h = refl
bytes_lt-asymm _ _ h = cc

pub bytes_lt_irrefl : (a : Bytes) → bytes_lt a a ≡ false
unfolding bytes_lt
bytes_lt_irrefl [] = refl
bytes_lt_irrefl (x ∷ a) = ground (arith, bytes_lt_irrefl a)

pub bytes_lt-total : (a b : Bytes) → beq a b ≡ false → bytes_lt b a ≡ false → bytes_lt a b ≡ true
unfolding bytes_lt beq
bytes_lt-total (x ∷ a) (y ∷ b) h k = ground (arith, bytes_lt-total a b)
bytes_lt-total [] (y ∷ b) h k = refl
bytes_lt-total _ _ h k = cc

pub lt-not_beq : (a b : Bytes) → bytes_lt a b ≡ true → beq a b ≡ false
lt-not_beq a b h = elim (Bool-cases (beq a b)) [
  | inl e ↦
      let same : a ≡ b = (beq_iff a b).0 e in
      let loop : bytes_lt a a ≡ true = rw (← same) at h in cc (bytes_lt_irrefl a)
  | inr e ↦ e
]

-- Every key of the object is below `k`, or above it.
abbrev pub KeysBelow : Bytes → Object → Type 0
KeysBelow k o = All (λ e. bytes_lt e.0 k ≡ true) o

abbrev pub KeysAbove : Bytes → Object → Type 0
KeysAbove k o = All (λ e. bytes_lt k e.0 ≡ true) o

-- The keys ascend, so no key stands twice.
abbrev pub IsOrdered : Object → Type 0
IsOrdered [] = Unit
IsOrdered ((k, _) ∷ o) = KeysAbove k o × IsOrdered o

KeysAbove-trans : (k j : Bytes) (o : Object) → bytes_lt k j ≡ true → KeysAbove j o → KeysAbove k o
KeysAbove-trans k j [] h a = tt
KeysAbove-trans k j ((i, _) ∷ o) h a = (bytes_lt_trans k j i h a.0, KeysAbove-trans k j o h a.1)

insert-KeysAbove :
    (j k : Bytes) (v : Entry) (o : Object)
    → bytes_lt j k ≡ true
    → KeysAbove j o
    → KeysAbove j (insert k v o)
unfolding insert
insert-KeysAbove j k v [] h a = (h, tt)
insert-KeysAbove j k v ((i, w) ∷ o) h a = ground (arith, insert-KeysAbove j k v o h a.1)

-- An assignment keeps the keys in order.
pub insert-IsOrdered : (k : Bytes) (v : Entry) (o : Object) → IsOrdered o → IsOrdered (insert k v o)
unfolding insert
insert-IsOrdered k v [] h = (tt, tt)
insert-IsOrdered k v ((j, w) ∷ o) h = elim (Bool-cases (beq j k)) [
  | inl same ↦ rw same (rw ((beq_iff j k).0 same) at h)
  | inr other ↦ elim (Bool-cases (bytes_lt k j)) [
    | inl before ↦ rw (other, before) ((before, KeysAbove-trans k j o before h.0), h)
    | inr after ↦
        rw (other, after)
          (
            insert-KeysAbove j k v o (bytes_lt-total j k other after) h.0,
            insert-IsOrdered k v o h.1,
          )
  ]
]

-- A key above all others goes to the end.
pub insert_last :
    (k : Bytes) (v : Entry) (o : Object) → KeysBelow k o → insert k v o ≡ o ++ (k, v) ∷ []
unfolding insert
insert_last k v [] h = refl
insert_last k v ((j, w) ∷ o) h =
    rw (lt-not_beq j k h.0, bytes_lt-asymm j k h.0, insert_last k v o h.1)

-- A lookup after an assignment.
pub lookup-insert :
    (j k : Bytes) (v : Entry) (o : Object)
    → lookup j (insert k v o) ≡ (if beq k j then some v else lookup j o)
unfolding insert lookup
lookup-insert j k v [] = refl
lookup-insert j k v ((i, w) ∷ o) =
    ground (arith, beq_iff i k, beq_iff i j, beq_iff k j, lookup-insert j k v o)
