-- ===== src/Job/Stream/Skips.antt =====
-- The separators that a reader skips, from a place in the window and from a place in the stream.
use ytsaurus_rs.Base.{
  ℕ, ◌+◌, ◌≤◌, List, [], ◌∷◌, ◌++◌, length, false, ◌≡◌, refl, sym, arith, Bool-cases, inl, inr,
}
use ytsaurus_rs.Job.Reader.{is_separator, skip}

pub skip-append :
    (base pos : ℕ) (w rest : List ℕ)
    → skip (base + pos) (w ++ rest) ≡ skip (base + (skip pos w).0) ((skip pos w).1 ++ rest)
unfolding skip
skip-append base pos [] rest = refl
skip-append base pos (b ∷ w) rest = elim (Bool-cases (is_separator b)) [
  | inl skips ↦
      let next : base + pos + 1 ≡ base + (pos + 1) = omega arith in
      rw (skip, skips, next) (skip-append base (pos + 1) w rest)
  | inr stops ↦ rw (skip, stops) (rw stops refl)
]

pub length-skip : (pos : ℕ) (w : List ℕ) → (skip pos w).0 + length (skip pos w).1 ≡ pos + length w
unfolding skip
length-skip pos [] = refl
length-skip pos (b ∷ w) = elim (Bool-cases (is_separator b)) [
  | inl skips ↦ rw (skip, skips) (omega (arith, length-skip (pos + 1) w))
  | inr stops ↦ rw (skip, stops) refl
]

pub skip_le : (pos : ℕ) (w : List ℕ) → pos ≤ (skip pos w).0
unfolding skip
skip_le pos [] = omega arith
skip_le pos (b ∷ w) = elim (Bool-cases (is_separator b)) [
  | inl skips ↦ rw (skip, skips) (omega (arith, skip_le (pos + 1) w))
  | inr stops ↦ rw (skip, stops) (omega arith)
]

pub skip_stops :
    (pos : ℕ) (w : List ℕ) (b : ℕ) (bs : List ℕ) → (skip pos w).1 ≡ b ∷ bs → is_separator b ≡ false
unfolding skip
skip_stops pos [] b bs h = cc
skip_stops pos (c ∷ w) b bs h = elim (Bool-cases (is_separator c)) [
  | inl skips ↦ skip_stops (pos + 1) w b bs (rw (skip, skips) at h)
  | inr stops ↦
      let e : c ∷ w ≡ b ∷ bs = rw (skip, stops) at h in let same : c ≡ b = cc in rw (sym same) stops
]
