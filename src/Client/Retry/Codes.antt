-- ===== src/Client/Retry/Codes.antt =====
-- Which error documents hold a code, and how the three questions on an error relate.
use Prim.Native.String.{String}
use ytsaurus_rs.Base.{
  ℕ, List, Option, none, some, Bool, true, false, ◌||◌, ◌≡◌, ◌↔◌, ◌⊎◌, inl, inr, refl,
  if◌then◌else◌, Bool-cases,
}
use ytsaurus_rs.Client.Error.{
  Document, Documents, document, nil, cons, ClientError, transport, UreqError,
}
use ytsaurus_rs.Client.Retry.{
  contains, code_among, contains_code, any_contains_code, rejected_the_certificate, is_retriable,
  worth_asking_again, attributable_to_the_host, is_rejected_transport,
}

-- A document has the codes of its own and of the documents under it, however deep.
mutual
  pub data HasCode : ℕ → Document → Type 0 where
    own : {code : ℕ} → {inner : Documents} → HasCode code (document (some code) inner)
    nested :
        {code : ℕ} {c : Option ℕ} {inner : Documents}
        → AnyHasCode code inner
        → HasCode code (document c inner)

  pub data AnyHasCode : ℕ → Documents → Type 0 where
    here : {code : ℕ} {d : Document} {ds : Documents} → HasCode code d → AnyHasCode code (cons d ds)
    there :
        {code : ℕ} {d : Document} {ds : Documents}
        → AnyHasCode code ds
        → AnyHasCode code (cons d ds)

or_right : (a b : Bool) → b ≡ true → (a || b) ≡ true
or_right true b h = refl
or_right false b h = h

or_left : (a b : Bool) → a ≡ true → (a || b) ≡ true
or_left true b h = refl
or_left false b h = cc

or_cases : (a b : Bool) → (a || b) ≡ true → (a ≡ true) ⊎ (b ≡ true)
or_cases true b h = inl refl
or_cases false b h = inr h

if_true : (a b : Bool) → (if a then true else b) ≡ (a || b)
if_true true b = refl
if_true false b = refl

module _ (wanted : List ℕ) where
  abbrev Wanted : (ℕ → Type 0) → Type 0
  Wanted P = (code : ℕ) × P code × (contains wanted code ≡ true)

  mutual
    unfolding contains_code

    code_found : (d : Document) → contains_code d wanted ≡ true → Wanted (λ code. HasCode code d)
    code_found (document none inner) h =
        let (code, has, w) = any_found inner h in (code, nested has, w)
    code_found (document (some c) inner) h =
        elim (or_cases (contains wanted c) (any_contains_code inner wanted)
          (rw (if_true (contains wanted c) (any_contains_code inner wanted)) at h)) [
            | inl w ↦ (c, own, w)
            | inr rest ↦ let (code, has, w) = any_found inner rest in (code, nested has, w)
          ]

    any_found :
        (ds : Documents) → any_contains_code ds wanted ≡ true → Wanted (λ code. AnyHasCode code ds)
    any_found nil h = cc
    any_found (cons d ds) h =
        elim (or_cases (contains_code d wanted) (any_contains_code ds wanted) h) [
          | inl first ↦ let (code, has, w) = code_found d first in (code, here has, w)
          | inr rest ↦ let (code, has, w) = any_found ds rest in (code, there has, w)
        ]

  module _ (code : ℕ) (w : contains wanted code ≡ true) where
    mutual
      unfolding contains_code

      found_code : (d : Document) → HasCode code d → contains_code d wanted ≡ true
      found_code (document (some c) inner) own = rw w refl
      found_code (document c inner) (nested has) =
          rw (if_true (code_among c wanted) _)
            (or_right (code_among c wanted) _ (found_any inner has))

      found_any : (ds : Documents) → AnyHasCode code ds → any_contains_code ds wanted ≡ true
      found_any nil has = elim has [ ]
      found_any (cons d ds) (here has) = or_left (contains_code d wanted) _ (found_code d has)
      found_any (cons d ds) (there has) = or_right (contains_code d wanted) _ (found_any ds has)

-- The walk answers that a document holds a wanted code just when one of its own or nested codes,
-- at any depth, is wanted.
pub contains_code_iff :
    (d : Document) (wanted : List ℕ)
    → (contains_code d wanted ≡ true)
      ↔ ((code : ℕ) × HasCode code d × (contains wanted code ≡ true))
contains_code_iff d wanted = (code_found wanted d, λ (code, has, w). found_code wanted code w d has)

module _ (from_str : String → Option Document) where
  rejected_transport :
      (e : ClientError)
      → is_rejected_transport from_str e ≡ true
      → (command : String) × (source : UreqError) × (e ≡ transport command source)
  rejected_transport (transport command source) h = (command, source, refl)
  rejected_transport _ h = cc

  unanswered :
      (command : String) (source : UreqError)
      → attributable_to_the_host from_str (transport command source) ≡ true
  unfolding attributable_to_the_host worth_asking_again is_retriable
  unanswered command source = elim (Bool-cases (rejected_the_certificate source)) [
    | inl t ↦ rw t refl
    | inr f ↦ rw f refl
  ]

  -- A failure is put down to the host just when no answer came at all, or when asking the cluster
  -- again may help; a failure that the same request may survive is always of the second kind.
  pub attributable_to_the_host_iff :
      (e : ClientError)
      → ((attributable_to_the_host from_str e ≡ true) ↔ (
          ((command : String) × (source : UreqError) × (e ≡ transport command source))
          ⊎ (worth_asking_again from_str e ≡ true)))
        × ((is_retriable from_str e || worth_asking_again from_str e)
            ≡ worth_asking_again from_str e)
  unfolding attributable_to_the_host worth_asking_again
  attributable_to_the_host_iff e = (
    (
      λ h. elim (or_cases (is_rejected_transport from_str e) _ h) [
        | inl rejected ↦ inl (rejected_transport e rejected)
        | inr again ↦ inr again
      ],
      λ h. elim h [
        | inl (command, source, same) ↦ rw same (unanswered command source)
        | inr again ↦ or_right (is_rejected_transport from_str e) _ again
      ],
    ),
    elim (Bool-cases (is_retriable from_str e)) [ inl t ↦ rw t refl | inr f ↦ rw f refl ],
  )
