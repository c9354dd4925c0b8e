-- ===== src/Client/Path/Ordering.antt =====
-- The order of keys, read from either side.
use ytsaurus_rs.Base.{
  ℕ, List, [], ◌∷◌, Option, none, some, Bool, true, false, ltb, ◌==◌, ◌&&◌, if◌then◌else◌, ◌≡◌,
  refl, sym, ap, ◌∙◌, arith,
}
use ytsaurus_rs.Yson.Node.{
  YsonValue, value, no_attributes, attributes, YsonNode, boolean, int64, uint64, double, string,
  entity, list, map, same_bytes,
}
use ytsaurus_rs.Client.YsonBuild.{less_bytes}
use ytsaurus_rs.Client.Path.{Key, pattern_of}
use ytsaurus_rs.Client.Path.Refusals.{
  Order, less, equal, greater, compare_numbers, compare_bytes, compare_booleans, node_ordering,
  part_ordering, decided, key_ordering,
}

abbrev pub reversed : Order → Order
reversed less = greater
reversed equal = equal
reversed greater = less

abbrev pub mirrored : Option Order → Option Order
mirrored none = none
mirrored (some order) = some (reversed order)

numbers-reversed : (a b : ℕ) → compare_numbers b a ≡ reversed (compare_numbers a b)
numbers-reversed a b = ground arith

booleans-reversed : (a b : Bool) → compare_booleans b a ≡ reversed (compare_booleans a b)
booleans-reversed true true = refl
booleans-reversed true false = refl
booleans-reversed false true = refl
booleans-reversed false false = refl

-- The first bytes that differ decide.
pub compare_bytes-step :
    (b c : ℕ) (bs cs : List ℕ)
    → compare_bytes (b ∷ bs) (c ∷ cs)
      ≡ (if ltb b c then less else if b == c then compare_bytes bs cs else greater)
compare_bytes-step b c bs cs = go (ltb b c) (b == c) (less_bytes bs cs) (same_bytes bs cs)
  where
    go :
        (l e l' e' : Bool)
        → (if (if l then true else if e then l' else false)
            then less
            else if e && e'
            then equal
            else greater)
          ≡ (if l
              then less
              else if e
              then (if l' then less else if e' then equal else greater)
              else greater)
    go true e l' e' = refl
    go false true l' e' = refl
    go false false l' e' = refl

bytes-reversed : (a b : List ℕ) → compare_bytes b a ≡ reversed (compare_bytes a b)
bytes-reversed [] [] = refl
bytes-reversed [] (c ∷ cs) = refl
bytes-reversed (b ∷ bs) [] = refl
bytes-reversed (b ∷ bs) (c ∷ cs) =
    compare_bytes-step c b cs bs
    ∙ by_first (compare_bytes cs bs) (compare_bytes bs cs) (bytes-reversed bs cs)
    ∙ sym (ap reversed (compare_bytes-step b c bs cs))
  where
    by_first :
        (o o' : Order)
        → o ≡ reversed o'
        → (if ltb c b then less else if c == b then o else greater)
          ≡ reversed (if ltb b c then less else if b == c then o' else greater)
    by_first o o' ih = ground arith

decided-mirrored :
    (p p' later later' : Option Order)
    → p ≡ mirrored p'
    → later ≡ mirrored later'
    → decided p later ≡ mirrored (decided p' later')
decided-mirrored p none later later' e e' = ap (λ x. decided x later) e
decided-mirrored p (some less) later later' e e' = ap (λ x. decided x later) e
decided-mirrored p (some equal) later later' e e' = ap (λ x. decided x later) e ∙ e'
decided-mirrored p (some greater) later later' e e' = ap (λ x. decided x later) e

module _ (partial_cmp : ℕ → ℕ → Option Order)
    (floats : (a b : ℕ) → partial_cmp b a ≡ mirrored (partial_cmp a b)) where
  nodes-mirrored :
      (a b : YsonNode) → node_ordering partial_cmp b a ≡ mirrored (node_ordering partial_cmp a b)
  nodes-mirrored (boolean a) (boolean b) = ap some (booleans-reversed a b)
  nodes-mirrored (int64 a) (int64 b) = ap some (numbers-reversed (pattern_of a) (pattern_of b))
  nodes-mirrored (uint64 a) (uint64 b) = ap some (numbers-reversed a b)
  nodes-mirrored (string a) (string b) = ap some (bytes-reversed a b)
  nodes-mirrored (double a) (double b) = floats a b
  nodes-mirrored entity (boolean b) = refl
  nodes-mirrored (list l) (boolean b) = refl
  nodes-mirrored (map m) (boolean b) = refl
  nodes-mirrored _ _ = refl

  parts-mirrored :
      (v w : YsonValue) → part_ordering partial_cmp w v ≡ mirrored (part_ordering partial_cmp v w)
  parts-mirrored (value no_attributes a) (value no_attributes b) = nodes-mirrored a b
  parts-mirrored (value no_attributes a) (value (attributes m) b) = refl
  parts-mirrored (value (attributes m) a) (value no_attributes b) = refl
  parts-mirrored (value (attributes m) a) (value (attributes m') b) = refl

-- Two keys stand to each other as they do the other way around, with less and greater exchanged, where
-- floats do.
pub key_ordering-mirrored :
    (partial_cmp : ℕ → ℕ → Option Order)
    → ((a b : ℕ) → partial_cmp b a ≡ mirrored (partial_cmp a b))
    → (lower upper : Key)
    → key_ordering partial_cmp upper lower ≡ mirrored (key_ordering partial_cmp lower upper)
unfolding key_ordering
key_ordering-mirrored partial_cmp floats [] [] = refl
key_ordering-mirrored partial_cmp floats [] (w ∷ upper) = refl
key_ordering-mirrored partial_cmp floats (v ∷ lower) [] = refl
key_ordering-mirrored partial_cmp floats (v ∷ lower) (w ∷ upper) =
    decided-mirrored (part_ordering partial_cmp w v) (part_ordering partial_cmp v w)
      (key_ordering partial_cmp upper lower) (key_ordering partial_cmp lower upper)
      (parts-mirrored partial_cmp floats v w) (key_ordering-mirrored partial_cmp floats lower upper)
