-- ===== src/Supervisor/Hls/Names.antt =====
-- Where a name that passes `badName` leads to (src/supervisor/supervisor_api.cpp, the route
-- `/encoder/<n>/hls/<file>` of `handleReq`).
use multi_coder.Prelude.{
  append-nil, subst, ℕ, Bool, true, false, ◌||◌, List, [], ◌∷◌, ◌++◌, ◌≡◌, refl, sym, ap, ◌∙◌, inl,
  inr, arith, Bytes, codes, beq, beq_iff, is_empty, starts_with, All, ◌==◌, if◌then◌else◌,
  Bool-cases, append_assoc,
}
use multi_coder.Strings.Lines.{contains}
use multi_coder.Supervisor.Host.{encoder_dir, encoder_file}
use multi_coder.Supervisor.Hls.{bad_name}
use multi_coder.Supervisor.Hls.Serve.{hls_path}

-- The first component of a path, and the others.
abbrev grown : ℕ → List Bytes → List Bytes
grown c [] = (c ∷ []) ∷ []
grown c (d ∷ ds) = (c ∷ d) ∷ ds

abbrev pub components : Bytes → List Bytes
components [] = [] ∷ []
components (c ∷ s) = let rest = components s in if c == b'/' then [] ∷ rest else grown c rest

-- One step of the system's path resolution from the folders entered so far, the innermost first.
abbrev pub entered : List Bytes → Bytes → List Bytes
entered [] name =
    if is_empty name || (beq name (codes ".") || beq name (codes "..")) then [] else name ∷ []
entered (d ∷ ds) name =
    if is_empty name || beq name (codes ".")
    then d ∷ ds
    else if beq name (codes "..")
    then ds
    else name ∷ d ∷ ds

abbrev pub walk : List Bytes → List Bytes → List Bytes
walk dirs [] = dirs
walk dirs (c ∷ cs) = walk (entered dirs c) cs

-- The folders and the name that a path stands for.
abbrev pub resolve : Bytes → List Bytes
resolve path = walk [] (components path)

-- `path` lies in `dir` or below it.
abbrev pub LiesIn : List Bytes → List Bytes → Type 0
LiesIn dir path = (below : List Bytes) × (path ≡ below ++ dir)

abbrev IsNoParent : Bytes → Type 0
IsNoParent name = beq name (codes "..") ≡ false

first_component :
    (s : Bytes)
    → (c : Bytes) × (cs : List Bytes) × (components s ≡ c ∷ cs) × (starts_with c s ≡ true)
unfolding starts_with
first_component [] = ([], [], refl, refl)
first_component (x ∷ s) = elim (Bool-cases (x == b'/')) [
  | inl e ↦ ([], components s, rw e refl, refl)
  | inr e ↦
      let (c, cs, eq, st) = first_component s in (x ∷ c, cs, rw (e, eq) refl, ground (arith, st))
]

-- A first component `..` stands at the head of the path.
first_component-IsNoParent :
    (c s : Bytes) → starts_with c s ≡ true → starts_with (codes "..") s ≡ false → IsNoParent c
unfolding starts_with
first_component-IsNoParent c s h k = elim (Bool-cases (beq c (codes ".."))) [
  | inl e ↦
      let same : c ≡ codes ".." = (beq_iff c (codes "..")).0 e in
      let both : starts_with (codes "..") s ≡ true = subst (λ d. starts_with d s ≡ true) same h in
      cc (both, k)
  | inr e ↦ e
]

or_false_left : (a b : Bool) → a || b ≡ false → a ≡ false
or_false_left a b h = ground arith

or_false_right : (a b : Bool) → a || b ≡ false → b ≡ false
or_false_right a b h = ground arith

components-IsNoParent :
    (s : Bytes) → contains (codes "..") s ≡ false → All IsNoParent (components s)
unfolding contains
components-IsNoParent [] h = (unfold beq in refl, tt)
components-IsNoParent (x ∷ s) h =
    let here = or_false_left (starts_with (codes "..") (x ∷ s)) (contains (codes "..") s) h in
    let later = or_false_right (starts_with (codes "..") (x ∷ s)) (contains (codes "..") s) h in
    let rest = components-IsNoParent s later in
    let (c, cs, eq, st) = first_component s in
    let rest' : All IsNoParent (c ∷ cs) = subst (λ cs'. All IsNoParent cs') eq rest in
    elim (Bool-cases (x == b'/')) [
      | inl e ↦ rw e (unfold beq in refl, rest)
      | inr e ↦
          let st' : starts_with (x ∷ c) (x ∷ s) ≡ true = unfold starts_with in ground (arith, st) in
          rw (e, eq) (first_component-IsNoParent (x ∷ c) (x ∷ s) st' here, rest'.1)
    ]

components-append : (a b : Bytes) → components (a ++ b'/' ∷ b) ≡ components a ++ components b
components-append [] b = refl
components-append (x ∷ a) b =
    let rest = components-append a b in
    let (c, cs, eq, st) = first_component a in
    elim (Bool-cases (x == b'/')) [ inl e ↦ rw (e, rest) refl | inr e ↦ rw (e, rest, eq) refl ]

walk-append : (dirs : List Bytes) (a b : List Bytes) → walk dirs (a ++ b) ≡ walk (walk dirs a) b
walk-append dirs [] b = refl
walk-append dirs (c ∷ a) b = walk-append (entered dirs c) a b

entered-LiesIn :
    (dirs : List Bytes) (name : Bytes) → IsNoParent name → LiesIn dirs (entered dirs name)
entered-LiesIn [] name h = (entered [] name, sym (append-nil (entered [] name)))
entered-LiesIn (d ∷ ds) name h = elim (Bool-cases (is_empty name || beq name (codes "."))) [
  | inl e ↦ rw e ([], refl)
  | inr e ↦ rw (e, h) (name ∷ [], refl)
]

walk-LiesIn : (dirs cs : List Bytes) → All IsNoParent cs → LiesIn dirs (walk dirs cs)
walk-LiesIn dirs [] h = ([], refl)
walk-LiesIn dirs (c ∷ cs) h =
    let (below, eq) = entered-LiesIn dirs c h.0 in
    let (deeper, eq') = walk-LiesIn (entered dirs c) cs h.1 in
    (deeper ++ below, eq' ∙ ap (λ t. deeper ++ t) eq ∙ sym (append_assoc deeper below dirs))

bad_name-no_parent :
    (filename : Bytes) → bad_name filename ≡ false → contains (codes "..") filename ≡ false
unfolding bad_name
bad_name-no_parent filename h = ground arith

-- The file that is read for a name that passes the check lies in the HLS folder of the encoder or
-- below it, as the system resolves its path: no name leads out of the folder.
pub hls_path-LiesIn :
    (enc : ℕ) (filename : Bytes)
    → bad_name filename ≡ false
    → LiesIn (resolve (encoder_file enc (codes "hls"))) (resolve (hls_path enc filename))
hls_path-LiesIn enc filename h =
    let dir = encoder_file enc (codes "hls") in
    let path : hls_path enc filename ≡ dir ++ b'/' ∷ filename =
      sym (append_assoc (encoder_dir enc) (b'/' ∷ codes "hls") (b'/' ∷ filename)) in
    let parts = components-append dir filename in
    let below =
      walk-LiesIn (resolve dir) (components filename)
        (components-IsNoParent filename (bad_name-no_parent filename h)) in
    let resolved : resolve (dir ++ b'/' ∷ filename) ≡ walk (resolve dir) (components filename) =
      ap (walk []) parts ∙ walk-append [] (components dir) (components filename) in
    subst (λ p. LiesIn (resolve dir) (resolve p)) (sym path)
      (subst (λ r. LiesIn (resolve dir) r) (sym resolved) below)
