-- ===== src/Client/Path/Lexicographic.antt =====
-- The order of keys, described without the comparison of the source: part by part from the first on.
use mathlib.Core.Path.{subst}
use ytsaurus_rs.Base.{
  ℕ, ◌≤◌, ◌<◌, ◌^◌, List, [], ◌∷◌, Option, none, some, Bool, true, false, ltb, ◌==◌, ltb→lt,
  if◌then◌else◌, ◌≡◌, ◌↔◌, ◌⊎◌, inl, inr, Bool-cases, refl, sym, ap, ◌∙◌, arith,
}
use ytsaurus_rs.Yson.Node.{
  YsonValue, value, no_attributes, attributes, YsonNode, boolean, int64, uint64, double, string,
  entity, list, map,
}
use ytsaurus_rs.Client.Path.{Key, pattern_of}
use ytsaurus_rs.Client.Path.Refusals.{
  Order, less, equal, greater, compare_numbers, compare_bytes, node_ordering, decided, key_ordering,
}
use ytsaurus_rs.Client.Path.Ordering.{mirrored, compare_bytes-step, key_ordering-mirrored}

-- The order of two `i64` by their 64-bit patterns: the negative ones are those from 2^63 on.
abbrev pub SignedBelow : ℕ → ℕ → Type 0
SignedBelow a b = ((2 ^ 63 ≤ a) × (b < 2 ^ 63)) ⊎ ((a < b) × ((b < 2 ^ 63) ⊎ (2 ^ 63 ≤ a)))

-- The first byte that differs is smaller, or there is none and the text is shorter.
pub data BytesBelow : List ℕ → List ℕ → Type 0 where
  shorter : {c : ℕ} {cs : List ℕ} → BytesBelow [] (c ∷ cs)
  smaller : {b c : ℕ} {bs cs : List ℕ} → b < c → BytesBelow (b ∷ bs) (c ∷ cs)
  behind : {b : ℕ} {bs cs : List ℕ} → BytesBelow bs cs → BytesBelow (b ∷ bs) (b ∷ cs)

-- An `i64` is given by a 64-bit pattern.
abbrev pub IsPart : YsonValue → Type 0
IsPart (value attrs (int64 a)) = a < 2 ^ 64
IsPart v = Unit

abbrev pub IsKey : Key → Type 0
IsKey [] = Unit
IsKey (v ∷ k) = IsPart v × IsKey k

signed_less :
    (a b : ℕ)
    → a < 2 ^ 64
    → b < 2 ^ 64
    → compare_numbers (pattern_of a) (pattern_of b) ≡ less
    → SignedBelow a b
signed_less a b small small' h = elim (Bool-cases (ltb a (2 ^ 63))) [
  | inl x ↦ inr (ground arith, inl (ground arith))
  | inr x ↦ elim (Bool-cases (ltb b (2 ^ 63))) [
    | inl y ↦ inl (ground arith, ground arith)
    | inr y ↦ inr (ground arith, inr (ground arith))
  ]
]

less_signed :
    (a b : ℕ)
    → a < 2 ^ 64
    → b < 2 ^ 64
    → SignedBelow a b
    → compare_numbers (pattern_of a) (pattern_of b) ≡ less
less_signed a b small small' (inl h) = ground arith
less_signed a b small small' (inr (h, inl k)) = ground arith
less_signed a b small small' (inr (h, inr k)) = ground arith

equal_signed :
    (a b : ℕ)
    → a < 2 ^ 64
    → b < 2 ^ 64
    → compare_numbers (pattern_of a) (pattern_of b) ≡ equal
    → a ≡ b
equal_signed a b small small' h = ground arith

same_numbers : (a : ℕ) → compare_numbers a a ≡ equal
same_numbers a = ground arith

first_less :
    (b c : ℕ) (later : Order)
    → (if ltb b c then less else if b == c then later else greater) ≡ less
    → (b < c) ⊎ ((b ≡ c) × (later ≡ less))
first_less b c later h = elim (Bool-cases (ltb b c)) [
  | inl below ↦ inl (ltb→lt b c below)
  | inr above ↦ inr (ground arith, ground arith)
]

first_equal :
    (b c : ℕ) (later : Order)
    → (if ltb b c then less else if b == c then later else greater) ≡ equal
    → (b ≡ c) × (later ≡ equal)
first_equal b c later h = (ground arith, ground arith)

bytes_less : (bs cs : List ℕ) → compare_bytes bs cs ≡ less → BytesBelow bs cs
bytes_less [] [] h = cc
bytes_less [] (c ∷ cs) h = shorter
bytes_less (b ∷ bs) [] h = cc
bytes_less (b ∷ bs) (c ∷ cs) h =
    elim (first_less b c (compare_bytes bs cs) (sym (compare_bytes-step b c bs cs) ∙ h)) [
      | inl below ↦ smaller below
      | inr (same, later) ↦
          subst (λ x. BytesBelow (b ∷ bs) (x ∷ cs)) same (behind (bytes_less bs cs later))
    ]

less_bytes_lem : {bs cs : List ℕ} → BytesBelow bs cs → compare_bytes bs cs ≡ less
less_bytes_lem shorter = refl
less_bytes_lem (smaller {b} {c} {bs} {cs} h) = compare_bytes-step b c bs cs ∙ ground arith
less_bytes_lem (behind {b} {bs} {cs} h) =
    compare_bytes-step b b bs cs ∙ (let ih = less_bytes_lem h in ground (arith, ih))

bytes_equal : (bs cs : List ℕ) → compare_bytes bs cs ≡ equal → bs ≡ cs
bytes_equal [] [] h = refl
bytes_equal [] (c ∷ cs) h = cc
bytes_equal (b ∷ bs) [] h = cc
bytes_equal (b ∷ bs) (c ∷ cs) h =
    let both : (b ≡ c) × (compare_bytes bs cs ≡ equal) =
      first_equal b c (compare_bytes bs cs) (sym (compare_bytes-step b c bs cs) ∙ h) in
    let rest : bs ≡ cs = bytes_equal bs cs both.1 in rw (both.0, rest) refl

same_bytes_lem : (bs : List ℕ) → compare_bytes bs bs ≡ equal
same_bytes_lem [] = refl
same_bytes_lem (b ∷ bs) =
    compare_bytes-step b b bs bs ∙ (let ih = same_bytes_lem bs in ground (arith, ih))

module _ (partial_cmp : ℕ → ℕ → Option Order) where
  -- The part is smaller than the other, which is of its type.
  pub data Below : YsonNode → YsonNode → Type 0 where
    booleans : Below (boolean false) (boolean true)
    signed : {a b : ℕ} → SignedBelow a b → Below (int64 a) (int64 b)
    unsigned : {a b : ℕ} → a < b → Below (uint64 a) (uint64 b)
    texts : {a b : List ℕ} → BytesBelow a b → Below (string a) (string b)
    floats : {a b : ℕ} → partial_cmp a b ≡ some less → Below (double a) (double b)

  -- The part is the other, and a float is the same number.
  pub data Alike : YsonNode → YsonNode → Type 0 where
    a_boolean : {a : Bool} → Alike (boolean a) (boolean a)
    a_signed : {a : ℕ} → Alike (int64 a) (int64 a)
    an_unsigned : {a : ℕ} → Alike (uint64 a) (uint64 a)
    a_text : {a : List ℕ} → Alike (string a) (string a)
    a_float : {a b : ℕ} → partial_cmp a b ≡ some equal → Alike (double a) (double b)

  -- Behind parts that are alike, the first that differs is smaller, or the key ends.
  pub data KeyBelow : Key → Key → Type 0 where
    ends : {w : YsonValue} {k : Key} → KeyBelow [] (w ∷ k)
    decides :
        {a b : YsonNode} {k k' : Key}
        → Below a b
        → KeyBelow (value no_attributes a ∷ k) (value no_attributes b ∷ k')
    goes_on :
        {a b : YsonNode} {k k' : Key}
        → Alike a b
        → KeyBelow k k'
        → KeyBelow (value no_attributes a ∷ k) (value no_attributes b ∷ k')

  numbers_less : (a b : ℕ) → some (compare_numbers a b) ≡ some less → a < b
  numbers_less a b h = ground arith

  numbers_equal : (a b : ℕ) → some (compare_numbers a b) ≡ some equal → a ≡ b
  numbers_equal a b h = ground arith

  some_injective : (o o' : Order) → some o ≡ some o' → o ≡ o'
  some_injective o o' h = cc

  nodes_less :
      (a b : YsonNode)
      → IsPart (value no_attributes a)
      → IsPart (value no_attributes b)
      → node_ordering partial_cmp a b ≡ some less
      → Below a b
  nodes_less (boolean false) (boolean true) p q h = booleans
  nodes_less (boolean false) (boolean false) p q h = cc
  nodes_less (boolean true) (boolean true) p q h = cc
  nodes_less (boolean true) (boolean false) p q h = cc
  nodes_less (int64 a) (int64 b) p q h = signed (signed_less a b p q (some_injective _ _ h))
  nodes_less (uint64 a) (uint64 b) p q h = unsigned (numbers_less a b h)
  nodes_less (string a) (string b) p q h = texts (bytes_less a b (some_injective _ _ h))
  nodes_less (double a) (double b) p q h = floats h
  nodes_less entity (boolean b) p q h = cc
  nodes_less (list l) (boolean b) p q h = cc
  nodes_less (map m) (boolean b) p q h = cc
  nodes_less _ _ p q h = cc

  nodes_equal :
      (a b : YsonNode)
      → IsPart (value no_attributes a)
      → IsPart (value no_attributes b)
      → node_ordering partial_cmp a b ≡ some equal
      → Alike a b
  nodes_equal (boolean false) (boolean true) p q h = cc
  nodes_equal (boolean false) (boolean false) p q h = a_boolean
  nodes_equal (boolean true) (boolean true) p q h = a_boolean
  nodes_equal (boolean true) (boolean false) p q h = cc
  nodes_equal (int64 a) (int64 b) p q h =
      subst (λ x. Alike (int64 a) (int64 x)) (equal_signed a b p q (some_injective _ _ h)) a_signed
  nodes_equal (uint64 a) (uint64 b) p q h =
      subst (λ x. Alike (uint64 a) (uint64 x)) (numbers_equal a b h) an_unsigned
  nodes_equal (string a) (string b) p q h =
      subst (λ x. Alike (string a) (string x)) (bytes_equal a b (some_injective _ _ h)) a_text
  nodes_equal (double a) (double b) p q h = a_float h
  nodes_equal entity (boolean b) p q h = cc
  nodes_equal (list l) (boolean b) p q h = cc
  nodes_equal (map m) (boolean b) p q h = cc
  nodes_equal _ _ p q h = cc

  less_nodes :
      {a b : YsonNode}
      → IsPart (value no_attributes a)
      → IsPart (value no_attributes b)
      → Below a b
      → node_ordering partial_cmp a b ≡ some less
  less_nodes p q booleans = refl
  less_nodes p q (signed {a} {b} h) = ap some (less_signed a b p q h)
  less_nodes p q (unsigned h) = ground arith
  less_nodes p q (texts h) = ap some (less_bytes_lem h)
  less_nodes p q (floats h) = h

  equal_nodes : {a b : YsonNode} → Alike a b → node_ordering partial_cmp a b ≡ some equal
  equal_nodes (a_boolean {a = true}) = refl
  equal_nodes (a_boolean {a = false}) = refl
  equal_nodes (a_signed {a}) = ap some (same_numbers (pattern_of a))
  equal_nodes (an_unsigned {a}) = ap some (same_numbers a)
  equal_nodes (a_text {a}) = ap some (same_bytes_lem a)
  equal_nodes (a_float h) = h

  decided_less :
      (p later : Option Order)
      → decided p later ≡ some less
      → (p ≡ some less) ⊎ ((p ≡ some equal) × (later ≡ some less))
  decided_less none later h = cc
  decided_less (some less) later h = inl refl
  decided_less (some equal) later h = inr (refl, h)
  decided_less (some greater) later h = cc

  keys_less :
      (lower upper : Key)
      → IsKey lower
      → IsKey upper
      → key_ordering partial_cmp lower upper ≡ some less
      → KeyBelow lower upper
  unfolding key_ordering
  keys_less [] [] p q h = cc
  keys_less [] (w ∷ upper) p q h = ends
  keys_less (v ∷ lower) [] p q h = cc
  keys_less (value no_attributes a ∷ lower) (value no_attributes b ∷ upper) p q h =
      elim (decided_less (node_ordering partial_cmp a b) (key_ordering partial_cmp lower upper) h) [
        | inl first ↦ decides (nodes_less a b p.0 q.0 first)
        | inr (same, later) ↦
            goes_on (nodes_equal a b p.0 q.0 same) (keys_less lower upper p.1 q.1 later)
      ]
  keys_less (value no_attributes a ∷ lower) (value (attributes m) b ∷ upper) p q h = cc
  keys_less (value (attributes m) a ∷ lower) (w ∷ upper) p q h = cc

  less_keys :
      {lower upper : Key}
      → IsKey lower
      → IsKey upper
      → KeyBelow lower upper
      → key_ordering partial_cmp lower upper ≡ some less
  unfolding key_ordering
  less_keys p q ends = refl
  less_keys p q (decides {k = k} {k' = k'} first) =
      ap (λ o. decided o (key_ordering partial_cmp k k')) (less_nodes p.0 q.0 first)
  less_keys p q (goes_on {k = k} {k' = k'} same later) =
      ap (λ o. decided o (key_ordering partial_cmp k k')) (equal_nodes same)
      ∙ less_keys p.1 q.1 later

mirrored-less : (o : Option Order) → (mirrored o ≡ some less) ↔ (o ≡ some greater)
mirrored-less none = (λ h. cc, λ h. cc)
mirrored-less (some less) = (λ h. cc, λ h. cc)
mirrored-less (some equal) = (λ h. cc, λ h. cc)
mirrored-less (some greater) = (λ h. refl, λ h. refl)

-- A key is less than another just where, behind parts that are alike, its first part that differs is
-- smaller than the other's, or it ends: numbers by their values, also negative ones, texts byte by
-- byte, and false before true; parts of different types and parts with attributes are not compared. It
-- is greater just where the other is less. Of the comparison of floats it is known that it turns around
-- with its operands.
pub key_ordering-KeyBelow :
    (partial_cmp : ℕ → ℕ → Option Order)
    → ((a b : ℕ) → partial_cmp b a ≡ mirrored (partial_cmp a b))
    → (lower upper : Key) → IsKey lower
    → IsKey upper
    → ((key_ordering partial_cmp lower upper ≡ some less) ↔ KeyBelow partial_cmp lower upper)
      × ((key_ordering partial_cmp lower upper ≡ some greater) ↔ KeyBelow partial_cmp upper lower)
key_ordering-KeyBelow partial_cmp turns lower upper p q = (
  (keys_less partial_cmp lower upper p q, less_keys partial_cmp p q),
  (
    λ h.
        keys_less partial_cmp upper lower q p
          (turned ∙ (mirrored-less (key_ordering partial_cmp lower upper)).1 h),
    λ below.
        (mirrored-less (key_ordering partial_cmp lower upper)).0
          (sym turned ∙ less_keys partial_cmp q p below),
  ),
)
  where
    turned : key_ordering partial_cmp upper lower ≡ mirrored (key_ordering partial_cmp lower upper)
    turned = key_ordering-mirrored partial_cmp turns lower upper
