-- ===== src/Client/Path/Scans.antt =====
-- The two scans for selectors, and the paths that a write accepts.
use ytsaurus_rs.Base.{
  ℕ, List, [], ◌∷◌, Option, none, some, Bool, true, false, not, ◌==◌, ◌||◌, if◌then◌else◌, ◌≡◌, ◌↔◌,
  refl,
}
use ytsaurus_rs.Client.Path.{TablePath}
use ytsaurus_rs.Client.Path.Refusals.{
  selector_from, first_unescaped_selector, Selectors, selectors_from, unescaped_selectors,
  starts_block, selects_columns, selects_ranges, attribute_block, named_selector, is_some, is_empty,
  write_refusal,
}

-- Nothing is found.
abbrev pub NoSelector : Selectors → Type 0
NoSelector found = (found.rows ≡ false) × (found.columns ≡ false)

-- What has been found stays found.
selectors_from-NoSelector :
    (escaped : Bool) (bytes : List ℕ) (found : Selectors)
    → NoSelector (selectors_from escaped bytes found)
    → NoSelector found
unfolding selectors_from
selectors_from-NoSelector escaped [] found h = h
selectors_from-NoSelector true (b ∷ bytes) found h = selectors_from-NoSelector false bytes found h
selectors_from-NoSelector false (b ∷ bytes) found h =
    let (r, c) = selectors_from-NoSelector (b == b'\\') bytes _ h in
    (later (b == b'[') found.rows r, later (b == b'{') found.columns c)
  where
    later : (p q : Bool) → (p || q) ≡ false → q ≡ false
    later true q k = cc
    later false q k = k

scans_agree :
    (escaped : Bool) (bytes : List ℕ) (found : Selectors)
    → NoSelector found
    → (selector_from escaped bytes ≡ none) ↔ NoSelector (selectors_from escaped bytes found)
unfolding selector_from selectors_from
scans_agree escaped [] found h = (λ k. h, λ k. refl)
scans_agree true (b ∷ bytes) found h = scans_agree false bytes found h
scans_agree false (b ∷ bytes) found h =
    go (b == b'[') (b == b'{') (b == b'\\') (scans_agree (b == b'\\') bytes)
  where
    next : Bool → Bool → Selectors
    next p q = record { rows = p || found.rows; columns = q || found.columns }

    go :
        (p q escaped' : Bool)
        → ((found' : Selectors)
            → NoSelector found'
            → (selector_from escaped' bytes ≡ none)
              ↔ NoSelector (selectors_from escaped' bytes found'))
        → ((if p then some b'[' else if q then some b'{' else selector_from escaped' bytes) ≡ none)
          ↔ NoSelector (selectors_from escaped' bytes (next p q))
    go true q escaped' ih =
        (λ k. cc, λ k. let e = (selectors_from-NoSelector escaped' bytes (next true q) k).0 in cc)
    go false true escaped' ih = (
      λ k. cc,
      λ k. let e = (selectors_from-NoSelector escaped' bytes (next false true) k).1 in cc,
    )
    go false false escaped' ih = ih (next false false) h

-- A path is accepted for a write exactly where it selects no columns and no ranges, opens with no
-- attribute block, and has no bracket or brace that no backslash escapes, by the scan that tells
-- the two apart.
pub write_refusal_iff :
    (p : TablePath)
    → (write_refusal p ≡ none) ↔ (
        (is_some p.columns ≡ false)
        × (is_empty p.ranges ≡ true)
        × (starts_block p.path ≡ false)
        × NoSelector (unescaped_selectors p.path))
unfolding write_refusal
write_refusal_iff p =
    go (is_some p.columns) (is_empty p.ranges) (starts_block p.path)
      (first_unescaped_selector p.path)
      (scans_agree false p.path (record { rows = false; columns = false }) (refl, refl))
  where
    go :
        (columns no_ranges block : Bool) (found : Option ℕ) {P : Type 0}
        → (found ≡ none) ↔ P
        → ((if columns
              then some selects_columns
              else if not no_ranges
              then some selects_ranges
              else if block
              then some attribute_block
              else named_selector found)
            ≡ none)
          ↔ ((columns ≡ false) × (no_ranges ≡ true) × (block ≡ false) × P)
    go true no_ranges block found agree = (λ k. cc, λ k. let e = k.0 in cc)
    go false false block found agree = (λ k. cc, λ k. let e = k.1 in cc)
    go false true true found agree = (λ k. cc, λ k. let e = k.2 in cc)
    go false true false none agree = (λ k. (refl, refl, refl, agree.0 refl), λ k. refl)
    go false true false (some b) agree = (λ k. cc, λ (x, y, z, w). let e = agree.1 w in cc)
