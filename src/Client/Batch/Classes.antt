-- ===== src/Client/Batch/Classes.antt =====
-- How a batch may be repeated, by the strictest of its parts.
use ytsaurus_rs.Base.{List, [], ◌∷◌, Bool, false, ◌||◌, if◌then◌else◌, ◌≡◌, refl, ap, ◌∙◌}
use ytsaurus_rs.Client.Retry.{Repeatable, freely, with_mutation_id, never}
use ytsaurus_rs.Client.Batch.{
  BatchPart, BatchRequest, PartKind, read, master_mutation, raw, is_raw, is_mutation, any,
  repeatable,
}

abbrev pub strictest : PartKind → PartKind → PartKind
strictest read k = k
strictest raw k = raw
strictest master_mutation raw = raw
strictest master_mutation k = master_mutation

abbrev pub worst : List BatchPart → PartKind
worst [] = read
worst (part ∷ parts) = strictest part.kind (worst parts)

abbrev pub class : PartKind → Repeatable
class read = freely
class master_mutation = with_mutation_id
class raw = never

-- The tests of a step, by the kinds of the part and of the others.
step_raw : (k w : PartKind) → (is_raw k || is_raw w) ≡ is_raw (strictest k w)
step_raw read w = refl
step_raw raw w = refl
step_raw master_mutation raw = refl
step_raw master_mutation read = refl
step_raw master_mutation master_mutation = refl

any-raw :
    (parts : List BatchPart) → any (λ (p : BatchPart). is_raw p.kind) parts ≡ is_raw (worst parts)
any-raw [] = refl
any-raw (part ∷ parts) =
    ap (λ b. is_raw part.kind || b) (any-raw parts) ∙ step_raw part.kind (worst parts)

step_mutation :
    (k w : PartKind) (b : Bool)
    → is_raw (strictest k w) ≡ false
    → (is_raw w ≡ false → b ≡ is_mutation w)
    → (is_mutation k || b) ≡ is_mutation (strictest k w)
step_mutation read w b h ih = ih h
step_mutation raw w b h ih = cc
step_mutation master_mutation raw b h ih = cc
step_mutation master_mutation read b h ih = refl
step_mutation master_mutation master_mutation b h ih = refl

any-mutation :
    (parts : List BatchPart)
    → is_raw (worst parts) ≡ false
    → any (λ (p : BatchPart). is_mutation p.kind) parts ≡ is_mutation (worst parts)
any-mutation [] h = refl
any-mutation (part ∷ parts) h =
    step_mutation part.kind (worst parts) (any (λ (p : BatchPart). is_mutation p.kind) parts) h
      (any-mutation parts)

-- A batch may be repeated as the strictest of its parts may: never with a raw part in it, under a
-- mutation id with a mutation and no raw part in it, and freely where all parts read.
pub repeatable-worst : (batch : BatchRequest) → repeatable batch ≡ class (worst batch.parts)
unfolding repeatable
repeatable-worst batch = go (worst batch.parts) (any-raw batch.parts) (any-mutation batch.parts)
  where
    raws : Bool
    raws = any (λ (p : BatchPart). is_raw p.kind) batch.parts

    mutations : Bool
    mutations = any (λ (p : BatchPart). is_mutation p.kind) batch.parts

    go :
        (w : PartKind)
        → raws ≡ is_raw w
        → (is_raw w ≡ false → mutations ≡ is_mutation w)
        → (if raws then never else if mutations then with_mutation_id else freely) ≡ class w
    go raw r m = ap (λ b. if b then never else if mutations then with_mutation_id else freely) r
    go master_mutation r m =
        ap (λ b. if b then never else if mutations then with_mutation_id else freely) r
        ∙ ap (λ b. if b then with_mutation_id else freely) (m refl)
    go read r m =
        ap (λ b. if b then never else if mutations then with_mutation_id else freely) r
        ∙ ap (λ b. if b then with_mutation_id else freely) (m refl)
