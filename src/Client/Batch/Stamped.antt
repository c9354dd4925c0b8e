-- ===== src/Client/Batch/Stamped.antt =====
-- The transaction of a part.
use Prim.Native.String.{String}
use ytsaurus_rs.Base.{
  ℕ, List, Option, none, some, Bool, true, false, not, ◌&&◌, if◌then◌else◌, ◌≡◌, refl, ap, ◌∙◌,
}
use ytsaurus_rs.Yson.Node.{YsonValue, value, map, YsonMap, Attributes, get, same_bytes}
use ytsaurus_rs.Client.YsonBuild.{text, insert_field, get-insert_field}
use ytsaurus_rs.Client.Batch.Keys.{k_transaction_id}
use ytsaurus_rs.Client.Batch.Requests.{stamped, takes_no_transaction, is_some}

-- The transaction of a part that is sent under one.
abbrev pub transaction_of : Bool → Option YsonValue → List ℕ → Option YsonValue
transaction_of takes_none (some own) id = some own
transaction_of true none id = none
transaction_of false none id = some (text id)

-- A part that names a transaction keeps it. Another gets that of the client, unless its command takes
-- none; its other parameters stay as they are.
pub stamped_lem :
    (id : List ℕ) (command : String) (attrs : Attributes) (fields : YsonMap)
    → (fields' : YsonMap) × (stamped (some id) command (value attrs (map fields))
        ≡ some (value attrs (map fields')))
      × (get k_transaction_id fields'
          ≡ transaction_of (takes_no_transaction command) (get k_transaction_id fields) id)
      × ((name : List ℕ)
          → same_bytes k_transaction_id name ≡ false
          → get name fields' ≡ get name fields)
stamped_lem id command attrs fields =
    go (takes_no_transaction command) (get k_transaction_id fields) refl
  where
    added : YsonMap
    added = insert_field k_transaction_id (text id) fields

    go :
        (takes_none : Bool) (own : Option YsonValue)
        → get k_transaction_id fields ≡ own
        → (fields' : YsonMap) × ((if not takes_none && not (is_some own)
              then some (value attrs (map added))
              else some (value attrs (map fields)))
            ≡ some (value attrs (map fields')))
          × (get k_transaction_id fields' ≡ transaction_of takes_none own id)
          × ((name : List ℕ)
              → same_bytes k_transaction_id name ≡ false
              → get name fields' ≡ get name fields)
    go true none e = (fields, refl, e, λ name other. refl)
    go true (some own) e = (fields, refl, e, λ name other. refl)
    go false (some own) e = (fields, refl, e, λ name other. refl)
    go false none e = (
      added,
      refl,
      get-insert_field k_transaction_id k_transaction_id (text id) fields,
      λ name other.
          get-insert_field name k_transaction_id (text id) fields
          ∙ ap (λ b. if b then some (text id) else get name fields) other,
    )
