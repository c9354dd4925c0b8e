-- ===== src/Skiff/Wire/Footprint.antt =====
-- What the steps of decoding cost: the budget spent, and the bytes read.
pub mod Charged
use Prim.Native.String.{String}
use ytsaurus_rs.Base.{
  ℕ, zero, suc, ◌+◌, ◌≤◌, ◌<◌, List, [], ◌∷◌, length, take, drop, get_elem?, Option, none, some,
  Bool, true, false, ltb, ◌≡◌, ◌≢◌, refl, arith, Result, ok, err, from_le, if◌then◌else◌, not, ◌==◌,
  length-take, All, length-drop, Bool-cases, inl, inr, ltb→le,
}
use ytsaurus_rs.Skiff.Schema.{Schema, WireType, Schemas, node, nil, cons}
use ytsaurus_rs.Skiff.Wire.{
  Value, Items, Values, no_items, no_values, item, value, CodecError, invalid_variant_tag,
  out_of_fuel, check_blob_length, is_narrow,
}
use ytsaurus_rs.Skiff.Wire.Decode.{
  Stream, M, pure, continue_with, ◌>>=◌, ◌>>◌, charge, read_exact, read_word, check_blob, read_blob,
  lift_check, read_variant_tag, is_repeated_variant_end, select, or_throw, decode_variant,
  decode_items, decode_repeated, decode_tuple, decode_node, decode_value, decoders,
}

-- What the nodes below the root and the blobs cost: one `Value` for each node, and each payload.
unfoldable mutual
  pub inner : ℕ → Value → ℕ
  inner size (Value.bytes bs) = length bs
  inner size (Value.yson bs) = length bs
  inner size (Value.variant tag v) = size + inner size v
  inner size (Value.repeated_variants items) = inner_items size items
  inner size (Value.tuple vs) = inner_values size vs
  inner size v = 0

  pub inner_items : ℕ → Items → ℕ
  inner_items size no_items = 0
  inner_items size (item tag v items) = size + inner size v + inner_items size items

  pub inner_values : ℕ → Values → ℕ
  inner_values size no_values = 0
  inner_values size (value v vs) = size + inner size v + inner_values size vs

-- The estimate of the source for a whole value.
unfoldable pub footprint : ℕ → Value → ℕ
footprint size v = size + inner size v

-- A postcondition on what a step answers; running out of fuel meets none.
abbrev pub After {ℓ} :
    {A : Type ℓ} → (A → Stream → Type 0) → Result CodecError (A × Stream) → Type 0
After P (ok (a, st)) = P a st
After P (err e) = e ≢ out_of_fuel

pub After-bind {ℓ κ} :
    {A : Type ℓ} {B : Type κ} (P : A → Stream → Type 0) (Q : B → Stream → Type 0)
    (r : Result CodecError (A × Stream)) (f : A → M B)
    → After P r
    → ((a : A) (st : Stream) → P a st → After Q (f a st))
    → After Q (continue_with r f)
After-bind P Q (ok (a, st)) f h k = k a st h
After-bind P Q (err e) f h k = h

pub After-map {ℓ} :
    {A : Type ℓ} (P Q : A → Stream → Type 0) (r : Result CodecError (A × Stream))
    → ((a : A) (st : Stream) → P a st → Q a st)
    → After P r
    → After Q r
After-map P Q (ok (a, st)) f h = f a st h
After-map P Q (err e) f h = h

-- The step spends `cost` of the budget, and takes `least` bytes of the input at least.
abbrev pub Spends {ℓ} : {A : Type ℓ} → (A → ℕ) → ℕ → Stream → A → Stream → Type 0
Spends cost least st a st' =
    (st'.remaining + cost a ≡ st.remaining) × (length st'.input + least ≤ length st.input)

abbrev pub Costs {ℓ} : {A : Type ℓ} → (A → ℕ) → ℕ → M A → Type 0
Costs cost least m = (st : Stream) → After (Spends cost least st) (m st)

pub map-Costs {ℓ κ} :
    {A : Type ℓ} {B : Type κ} (c : A → ℕ) (d : B → ℕ) (least : ℕ) (m : M A) (g : A → B)
    → Costs c least m
    → ((a : A) → d (g a) ≡ c a)
    → Costs d least (m >>= λ a. pure (g a))
map-Costs c d least m g h same st =
    After-bind (Spends c least st) (Spends d least st) (m st) (λ a. pure (g a)) (h st)
      (λ a st' (spent, taken). (rw (same a) spent, taken))

pub charge-Costs : (n : ℕ) → Costs (λ u. n) 0 (charge n)
unfolding charge
charge-Costs n st = elim (Bool-cases (ltb st.remaining n)) [
  | inl short ↦ rw short (λ same. cc)
  | inr enough ↦ rw enough (ground arith)
]

pub read_exact-Costs :
    (n : ℕ) (context : String) (st : Stream)
    → After (λ bs st'. (length bs ≡ n) × Spends (λ u. 0) n st bs st') (read_exact n context st)
unfolding read_exact
read_exact-Costs n context st = elim (Bool-cases (ltb (length st.input) n)) [
  | inl short ↦ rw short (λ same. cc)
  | inr enough ↦
      rw enough (ground (arith, ltb→le _ _ enough, length-take n st.input, length-drop n st.input))
]

pub read_word-Costs : (n : ℕ) (context : String) → Costs (λ w. 0) n (read_word n context)
unfolding read_word
read_word-Costs n context st =
    After-bind (λ bs st'. (length bs ≡ n) × Spends (λ u. 0) n st bs st') (Spends (λ w. 0) n st)
      (read_exact n context st) (λ bs. pure (from_le bs)) (read_exact-Costs n context st)
      (λ bs st' h. h.1)

pub check_blob-Costs :
    (t : WireType) (n : ℕ) (st : Stream) → After (λ u st'. st' ≡ st) (check_blob t n st)
unfolding check_blob_length
check_blob-Costs t n st = elim (Bool-cases (ltb st.max_blob_bytes n)) [
  | inl large ↦ rw large (λ same. cc)
  | inr fits ↦ rw fits refl
]

pub read_blob-Costs : (t : WireType) → Costs (λ bs. length bs) 4 (read_blob t)
unfolding read_blob
read_blob-Costs t st =
    After-bind (Spends (λ w. 0) 4 st) _ (read_word 4 "blob length" st) _
      (read_word-Costs 4 "blob length" st)
      (λ n st1 h1.
        After-bind (λ u st2. st2 ≡ st1) _ (check_blob t n st1) _ (check_blob-Costs t n st1)
          (λ u st2 same.
            After-bind (Spends (λ u. n) 0 st2) _ (charge n st2) _ (charge-Costs n st2) (λ u' st3 h3.
              After-map (λ bs st4. (length bs ≡ n) × Spends (λ u. 0) n st3 bs st4)
                (Spends (λ bs. length bs) 4 st) (read_exact n "blob payload" st3)
                (λ bs st4 h4.
                  let before : (st2.remaining ≡ st1.remaining)
                      × (length st2.input ≡ length st1.input) =
                    rw same (refl, refl) in
                  omega (arith, h1, before, h3, h4))
                (read_exact-Costs n "blob payload" st3))))

pub read_variant_tag-Costs : (t : WireType) → Costs (λ tag. 0) 1 (read_variant_tag t)
unfolding read_variant_tag
read_variant_tag-Costs t st = elim (Bool-cases (is_narrow t)) [
  | inl narrow ↦ rw narrow (read_word-Costs 1 "variant8 tag" st)
  | inr wide ↦ rw wide (
      After-map (Spends (λ w. 0) 2 st) (Spends (λ w. 0) 1 st) (read_word 2 "variant16 tag" st)
        (λ w st' h. omega (arith, h)) (read_word-Costs 2 "variant16 tag" st))
]
