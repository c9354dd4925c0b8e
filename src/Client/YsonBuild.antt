-- ===== src/Client/YsonBuild.antt =====
-- crates/ytsaurus-client/src/yson_build.rs: the constructors of YSON documents. A dict is its fields
-- in the order of their keys.
use ytsaurus_rs.Base.{
  ℕ, List, [], ◌∷◌, Option, none, some, Bool, true, false, ltb, ◌==◌, if◌then◌else◌, ◌≡◌, refl, sym,
  ◌∙◌, arith, Bool-cases, inl, inr,
}
use mathlib.Core.Path.{subst}
use ytsaurus_rs.Yson.Node.{
  YsonValue, value, no_attributes, YsonNode, boolean, int64, string, list, map, YsonList, nil, item,
  YsonMap, empty, field, same_bytes, get,
}

abbrev pub plain : YsonNode → YsonValue
plain node = value no_attributes node

abbrev pub text : List ℕ → YsonValue
text bytes = plain (string bytes)

abbrev pub int : ℕ → YsonValue
int w = plain (int64 w)

abbrev pub truth : Bool → YsonValue
truth b = plain (boolean b)

abbrev pub items_of : List YsonValue → YsonList
items_of [] = nil
items_of (v ∷ vs) = item v (items_of vs)

abbrev pub sequence : List YsonValue → YsonValue
sequence vs = plain (list (items_of vs))

-- The order of the keys.
abbrev pub less_bytes : List ℕ → List ℕ → Bool
less_bytes [] [] = false
less_bytes [] (c ∷ cs) = true
less_bytes (b ∷ bs) [] = false
less_bytes (b ∷ bs) (c ∷ cs) =
    let later = less_bytes bs cs in if ltb b c then true else if b == c then later else false

-- `BTreeMap::insert`
unfoldable pub insert_field : List ℕ → YsonValue → YsonMap → YsonMap
insert_field key v empty = field key v empty
insert_field key v (field k w fields) =
    let later = insert_field key v fields in
    if same_bytes key k
    then field key v fields
    else if less_bytes key k
    then field key v (field k w fields)
    else field k w later

abbrev pub fields_of : YsonMap → List (List ℕ × YsonValue) → YsonMap
fields_of out [] = out
fields_of out ((key, v) ∷ entries) = fields_of (insert_field key v out) entries

abbrev pub dict : List (List ℕ × YsonValue) → YsonValue
dict entries = plain (map (fields_of empty entries))

abbrev pub empty_map : YsonValue
empty_map = plain (map empty)

-- `insert`, which panics on a value that is no dict.
abbrev pub insert : YsonValue → List ℕ → YsonValue → Option YsonValue
insert (value attrs (map fields)) key v = some (value attrs (map (insert_field key v fields)))
insert target key v = none

pub same_bytes-eq : (a b : List ℕ) → same_bytes a b ≡ true → a ≡ b
same_bytes-eq [] [] h = refl
same_bytes-eq [] (c ∷ cs) h = cc
same_bytes-eq (b ∷ bs) [] h = cc
same_bytes-eq (b ∷ bs) (c ∷ cs) h = elim (Bool-cases (b == c)) [
  | inl same ↦
      let rest : same_bytes bs cs ≡ true = rw same at h in
      let e : b ≡ c = ground arith in let e' : bs ≡ cs = same_bytes-eq bs cs rest in cc
  | inr differs ↦ let e : false ≡ true = rw differs at h in cc
]

pub same_bytes_refl : (a : List ℕ) → same_bytes a a ≡ true
same_bytes_refl [] = refl
same_bytes_refl (b ∷ bs) = let e : (b == b) ≡ true = ground arith in rw e (same_bytes_refl bs)

if-if {ℓ} :
    {A : Type ℓ} (b : Bool) (x y z : A)
    → (if b then x else z) ≡ (if b then x else if b then y else z)
if-if true x y z = refl
if-if false x y z = refl

if-swap {ℓ} :
    {A : Type ℓ} (b c : Bool) (x y z : A)
    → (b ≡ true → c ≡ false)
    → (if c then y else if b then x else z) ≡ (if b then x else if c then y else z)
if-swap true true x y z h = let e = h refl in cc
if-swap true false x y z h = refl
if-swap false c x y z h = refl

-- What is found under a name, once a key has been inserted.
pub get-insert_field :
    (name key : List ℕ) (v : YsonValue) (fields : YsonMap)
    → get name (insert_field key v fields)
      ≡ (if same_bytes key name then some v else get name fields)
unfolding insert_field
get-insert_field name key v empty = refl
get-insert_field name key v (field k w fields) =
    let ih = get-insert_field name key v fields in
    elim (Bool-cases (same_bytes key k)) [
      | inl same ↦
          let e : key ≡ k = same_bytes-eq key k same in
          rw same (
            subst
              (λ x. (if same_bytes key name then some v else get name fields) ≡ (
                if same_bytes key name
                then some v
                else if same_bytes x name
                then some w
                else get name fields))
              e (if-if (same_bytes key name) (some v) (some w) (get name fields)))
      | inr differs ↦ rw differs (elim (Bool-cases (less_bytes key k)) [
        | inl before ↦ rw before refl
        | inr behind ↦
            rw (behind, ih)
              (if-swap (same_bytes key name) (same_bytes k name) (some v) (some w) (get name fields)
                (λ is_key. other is_key differs))
      ])
    ]
  where
    other : same_bytes key name ≡ true → same_bytes key k ≡ false → same_bytes k name ≡ false
    other is_key differs = elim (Bool-cases (same_bytes k name)) [
      | inr e ↦ e
      | inl e ↦
          let a : key ≡ name = same_bytes-eq key name is_key in
          let b : k ≡ name = same_bytes-eq k name e in
          let c : same_bytes key k ≡ true =
            subst (λ x. same_bytes key x ≡ true) (a ∙ sym b) (same_bytes_refl key) in
          cc
    ]
