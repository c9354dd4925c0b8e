-- ===== src/Yson/Node.antt =====
-- crates/ytsaurus-yson/src/node.rs: the dynamic representation of a value. A map is its fields in the
-- order of their keys, in which the source iterates over it.
use ytsaurus_rs.Base.{
  ℕ, List, [], ◌∷◌, Option, none, some, Bool, true, false, ◌==◌, ◌&&◌, if◌then◌else◌,
}

mutual
  pub data YsonValue : Type 0 where
    value : (attributes : Attributes) → (node : YsonNode) → YsonValue

  pub data Attributes : Type 0 where
    no_attributes : Attributes
    attributes : YsonMap → Attributes

  -- A signed number and a float are their 64-bit patterns.
  pub data YsonNode : Type 0 where
    entity : YsonNode
    boolean : Bool → YsonNode
    int64 uint64 double : ℕ → YsonNode
    string : List ℕ → YsonNode
    list : YsonList → YsonNode
    map : YsonMap → YsonNode

  pub data YsonList : Type 0 where
    nil : YsonList
    item : YsonValue → YsonList → YsonList

  pub data YsonMap : Type 0 where
    empty : YsonMap
    field : List ℕ → YsonValue → YsonMap → YsonMap

abbrev pub as_i64 : YsonValue → Option ℕ
as_i64 (value attrs (int64 v)) = some v
as_i64 v = none

abbrev pub same_bytes : List ℕ → List ℕ → Bool
same_bytes [] [] = true
same_bytes [] (c ∷ cs) = false
same_bytes (b ∷ bs) [] = false
same_bytes (b ∷ bs) (c ∷ cs) = b == c && same_bytes bs cs

-- `fields.get(name)`
abbrev pub get : List ℕ → YsonMap → Option YsonValue
get name empty = none
get name (field key v fields) =
    let rest = get name fields in if same_bytes key name then some v else rest
