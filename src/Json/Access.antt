-- ===== src/Json/Access.antt =====
-- Reading a member after writing one (src/common/SimpleJson.cpp, the getters and setters).
use multi_coder.Prelude.{
  Bool, true, false, ◌≡◌, refl, Bytes, beq, Bool-cases, inl, inr, some, codes, if◌then◌else◌,
}
use multi_coder.Prelude.Int.{ℤ}
use multi_coder.Strings.{trim, int_to_string}
use multi_coder.Json.{
  Object, get_string, get_bool, set_string, set_int, set_bool, entry_bool, bool_text,
}
use multi_coder.Json.Order.{lookup-insert}

pub get_string-set_string :
    (o : Object) (k v j d : Bytes)
    → get_string (set_string o k v) j d ≡ (if beq k j then v else get_string o j d)
unfolding get_string set_string
get_string-set_string o k v j d = elim (Bool-cases (beq k j)) [
  | inl e ↦ rw (lookup-insert j k (record { raw = v; quoted = true }) o) (rw e)
  | inr e ↦ rw (lookup-insert j k (record { raw = v; quoted = true }) o) (rw e)
]

-- A truth value is not a text.
pub get_string-set_bool :
    (o : Object) (k : Bytes) (b : Bool) (j d : Bytes)
    → get_string (set_bool o k b) j d ≡ (if beq k j then d else get_string o j d)
unfolding get_string set_bool
get_string-set_bool o k b j d = elim (Bool-cases (beq k j)) [
  | inl e ↦
      rw
        (lookup-insert j k
          (record { raw = if b then codes "true" else codes "false"; quoted = false }) o)
        (rw e)
  | inr e ↦
      rw
        (lookup-insert j k
          (record { raw = if b then codes "true" else codes "false"; quoted = false }) o)
        (rw e)
]

bool_read :
    (b d : Bool)
    → entry_bool
        (some (record { raw = if b then codes "true" else codes "false"; quoted = false }))
        d
      ≡ b
unfolding entry_bool bool_text trim beq
bool_read true d = refl
bool_read false d = refl

pub get_bool-set_bool :
    (o : Object) (k : Bytes) (b : Bool) (j : Bytes) (d : Bool)
    → get_bool (set_bool o k b) j d ≡ (if beq k j then b else get_bool o j d)
unfolding get_bool set_bool
get_bool-set_bool o k b j d = elim (Bool-cases (beq k j)) [
  | inl e ↦
      rw
        (lookup-insert j k
          (record { raw = if b then codes "true" else codes "false"; quoted = false }) o)
        (rw e (bool_read b d))
  | inr e ↦
      rw
        (lookup-insert j k
          (record { raw = if b then codes "true" else codes "false"; quoted = false }) o)
        (rw e)
]

pub get_bool-set_string :
    (o : Object) (k v j : Bytes) (d : Bool)
    → beq k j ≡ false
    → get_bool (set_string o k v) j d ≡ get_bool o j d
unfolding get_bool set_string
get_bool-set_string o k v j d e =
    rw (lookup-insert j k (record { raw = v; quoted = true }) o) (rw e)

-- A number is no text, and no truth value.
pub get_string-set_int :
    (o : Object) (k : Bytes) (n : ℤ) (j d : Bytes)
    → get_string (set_int o k n) j d ≡ (if beq k j then d else get_string o j d)
unfolding get_string set_int
get_string-set_int o k n j d = elim (Bool-cases (beq k j)) [
  | inl e ↦ rw (lookup-insert j k (record { raw = int_to_string n; quoted = false }) o) (rw e)
  | inr e ↦ rw (lookup-insert j k (record { raw = int_to_string n; quoted = false }) o) (rw e)
]

pub get_bool-set_int :
    (o : Object) (k : Bytes) (n : ℤ) (j : Bytes) (d : Bool)
    → beq k j ≡ false
    → get_bool (set_int o k n) j d ≡ get_bool o j d
unfolding get_bool set_int
get_bool-set_int o k n j d e =
    rw (lookup-insert j k (record { raw = int_to_string n; quoted = false }) o) (rw e)

pub ruleset json_access = (
  get_string-set_string, get_string-set_bool, get_string-set_int, get_bool-set_bool,
  get_bool-set_string, get_bool-set_int,
)
