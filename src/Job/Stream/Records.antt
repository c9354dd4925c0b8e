-- ===== src/Job/Stream/Records.antt =====
-- The next record of a stream in binary YSON: the reader finds what a scan of the whole stream finds,
-- however the bytes arrive and however much of them is buffered.
use ytsaurus_rs.Base.{
  ℕ, zero, suc, ◌≤◌, ◌<◌, List, [], ◌∷◌, ◌++◌, length, take, Option, none, some, Bool, true, false,
  ◌≡◌, refl, sym, ap, ◌∙◌, arith, Result, ok, err, inl, inr, ◌⊎◌, append-nil, length-append,
  take-append,
}
use ytsaurus_rs.Base.Actions.{continue_with, ◌>>◌}
use ytsaurus_rs.Yson.{YsonError}
use ytsaurus_rs.Yson.Lexer.Tokens.{Std}
use ytsaurus_rs.Yson.Scan.{Scan, complete, incomplete, scan_value}
use ytsaurus_rs.Yson.Scan.Boundary.{scan_value-append, scan_value_bounds}
use ytsaurus_rs.Job.{JobError, yson, truncated_record, record_too_large, read_failed}
use ytsaurus_rs.Job.Reader.{
  Source, Reader, Reading, offset_of, is_separator, skip, skip_separators, starve, starved, scanned,
  fill, examine, next_record_len,
}
use ytsaurus_rs.Job.Stream.{Contract, Kept, kept, stream, budget, IsValid}
use ytsaurus_rs.Job.Stream.Skips.{skip-append, length-skip, skip_stops}
use ytsaurus_rs.Job.Stream.Fill.{Refilled, fill-Refilled}

module _ (std : Std) {I : Type 0} (source : Source I) (contract : Contract source) where
  -- The first byte of the stream behind the separators: its offset, and the bytes from there on.
  abbrev pub target : Reader I → ℕ × List ℕ
  target r = skip (offset_of r) (stream source contract r)

  -- What a search for a record answers, by the bytes of the stream behind the separators.
  abbrev pub Answers : ℕ × List ℕ → Kept → ℕ → Result JobError (Option ℕ × Reader I) → Type 0
  Answers t kept_ limit (ok (some len, r)) =
      IsValid source contract r
      × ((offset_of r, stream source contract r) ≡ t)
      × (kept r ≡ kept_)
      × (budget source contract r ≤ limit)
      × (len ≤ length r.window)
      × (scan_value std true t.1 ≡ ok (complete len))
  Answers t kept_ limit (ok (none, r)) =
      IsValid source contract r
      × ((offset_of r, []) ≡ t)
      × (kept r ≡ kept_)
      × (budget source contract r ≤ limit)
      × (stream source contract r ≡ [])
  Answers t kept_ limit (err (yson at_ e)) = (at_ ≡ t.0) × (scan_value std true t.1 ≡ err e)
  Answers t kept_ limit (err (truncated_record at_ buffered)) =
      (at_ ≡ t.0)
      × (buffered ≡ length t.1)
      × (1 ≤ buffered)
      × (scan_value std true t.1 ≡ ok incomplete)
  Answers t kept_ limit (err (record_too_large at_ most)) =
      (at_ ≡ t.0)
      × (most ≡ kept_.1)
      × ((n : ℕ) × (most ≤ n)
          × (n ≤ length t.1)
          × (scan_value std true (take n t.1) ≡ ok incomplete))
  Answers t kept_ limit (err (read_failed message)) = Unit {0}
  Answers t kept_ limit (err e) = ⊥

  later-Answers :
      (t : ℕ × List ℕ) (kept_ : Kept) (limit limit' : ℕ) (r : Result JobError (Option ℕ × Reader I))
      → limit ≤ limit'
      → Answers t kept_ limit r
      → Answers t kept_ limit' r
  later-Answers t kept_ limit limit' (ok (some len, r)) le h =
      (h.0, h.1, h.2, omega (arith, h.3), h.4, h.5)
  later-Answers t kept_ limit limit' (ok (none, r)) le h = (h.0, h.1, h.2, omega (arith, h.3), h.4)
  later-Answers t kept_ limit limit' (err (yson at_ e)) le h = h
  later-Answers t kept_ limit limit' (err (truncated_record at_ n)) le h = h
  later-Answers t kept_ limit limit' (err (record_too_large at_ n)) le h = h
  later-Answers t kept_ limit limit' (err (read_failed message)) le h = tt
  later-Answers t kept_ limit limit' (err _) le h = h

  -- The window holds nothing, or a part of the record that the target starts with.
  abbrev Wants : Reader I → Type 0
  Wants r =
      (r.window ≡ [])
      ⊎ ((target r ≡ (offset_of r, stream source contract r))
          × (scan_value std true r.window ≡ ok incomplete))

  abbrev Goal : Reader I → Result JobError (Option ℕ × Reader I) → Type 0
  Goal r = Answers (target r) (kept r) (budget source contract r)

  -- The search goes on behind a refill.
  refilled :
      (next : Reading I (Option ℕ)) (r : Reader I) (f : Result JobError (Unit {0} × Reader I))
      → Wants r
      → Refilled source contract
          (offset_of r)
          (stream source contract r)
          (kept r)
          (length r.window)
          (budget source contract r)
          f
      → ((r' : Reader I)
          → IsValid source contract r'
          → kept r' ≡ kept r
          → budget source contract r' < budget source contract r
          → Goal r' (next r'))
      → Goal r (continue_with f (λ u. next))
  refilled next r (ok (u, r')) wants h rest =
      let found : Answers (skip (offset_of r') (stream source contract r')) (kept r')
          (budget source contract r') (next r') =
        rest r' h.0 h.3 h.4 in
      let same : Answers (target r) (kept r) (budget source contract r') (next r') =
        rw (h.1, h.2, h.3) at found in
      later-Answers (target r) (kept r) (budget source contract r') (budget source contract r)
        (next r') (omega (arith, h.4)) same
  refilled next r (err (record_too_large at_ most)) (inl nothing) h rest =
      let none_held : length r.window ≡ 0 = ap length nothing in absurd (omega (arith, h.3))
  refilled next r (err (record_too_large at_ most)) (inr (fixed, waits)) h rest = rw fixed (
    h.0,
    h.1,
    (
      length r.window,
      h.2,
      omega (arith, length-append r.window (contract.remaining r.input)),
      rw (take-append (length r.window) r.window (contract.remaining r.input) refl) waits,
    ),
  )
  refilled next r (err (read_failed message)) wants h rest = tt
  refilled next r (err _) wants h rest = absurd h

  refill :
      (fuel : ℕ) (r : Reader I)
      → IsValid source contract r
      → r.input_done ≡ false
      → budget source contract r ≤ fuel
      → Wants r
      → ((r' : Reader I)
          → IsValid source contract r'
          → kept r' ≡ kept r
          → budget source contract r' < budget source contract r
          → Goal r' (next_record_len std source fuel r'))
      → Goal r ((fill source fuel >> next_record_len std source fuel) r)
  refill fuel r valid waits fueled wants rest =
      let patient : contract.patience r.input < fuel = omega (arith, rw waits at fueled) in
      refilled (next_record_len std source fuel) r (fill source fuel r) wants
        (fill-Refilled source contract fuel r valid waits patient) rest

  -- At the end of the input the stream is what the window holds.
  at_end :
      (r : Reader I)
      → IsValid source contract r
      → r.input_done ≡ true
      → stream source contract r ≡ r.window
  at_end r valid over = rw (valid.ended over) (append-nil r.window)

  starve-Answers :
      (next : Reading I (Option ℕ)) (r : Reader I) (done : Bool) (w : List ℕ)
      → IsValid source contract r
      → r.input_done ≡ done
      → r.window ≡ w
      → Wants r
      → (done ≡ false → Goal r (next r))
      → Goal r (starve done w next r)
  unfolding skip
  starve-Answers next r false w valid waits e wants rest = rest refl
  starve-Answers next r true [] valid over e wants rest =
      let empty : stream source contract r ≡ [] = at_end r valid over ∙ e in
      (valid, sym (ap (skip (offset_of r)) empty), refl, omega arith, empty)
  starve-Answers next r true (b ∷ bs) valid over e (inl nothing) rest = cc
  starve-Answers next r true (b ∷ bs) valid over e (inr (fixed, waits)) rest =
      let all = at_end r valid over in
      let some_left : 1 ≤ length r.window = rw e (omega arith) in
      rw fixed (refl, ap length (sym all), some_left, rw all waits)

  starved-Answers :
      (next : Reading I (Option ℕ)) (r : Reader I)
      → IsValid source contract r
      → Wants r
      → (r.input_done ≡ false → Goal r (next r))
      → Goal r (starved next r)
  starved-Answers next r valid wants rest =
      starve-Answers next r r.input_done r.window valid refl refl wants rest

  scanned-Answers :
      (next : Reading I (Option ℕ)) (r : Reader I) (s : Result YsonError Scan)
      → IsValid source contract r
      → target r ≡ (offset_of r, stream source contract r)
      → scan_value std true r.window ≡ s
      → (Wants r → r.input_done ≡ false → Goal r (next r))
      → Goal r (scanned next s r)
  scanned-Answers next r (ok (complete len)) valid fixed e rest = rw fixed (
    valid,
    refl,
    refl,
    omega arith,
    (scan_value_bounds std r.window len e).1,
    scan_value-append std r.window (contract.remaining r.input) (ok (complete len)) e (λ same. cc),
  )
  scanned-Answers next r (ok incomplete) valid fixed e rest =
      starved-Answers next r valid (inr (fixed, e)) (rest (inr (fixed, e)))
  scanned-Answers next r (err source_) valid fixed e rest = rw fixed (
    refl,
    scan_value-append std r.window (contract.remaining r.input) (err source_) e (λ same. cc),
  )

  examine-Answers :
      (next : Reading I (Option ℕ)) (r : Reader I) (w : List ℕ)
      → IsValid source contract r
      → r.is_binary ≡ true
      → r.window ≡ w
      → ((b : ℕ) (bs : List ℕ) → w ≡ b ∷ bs → is_separator b ≡ false)
      → (Wants r → r.input_done ≡ false → Goal r (next r))
      → Goal r (examine std source w next r)
  unfolding skip
  examine-Answers next r [] valid binary e stops rest =
      starved-Answers next r valid (inl e) (rest (inl e))
  examine-Answers next r (b ∷ bs) valid binary e stops rest =
      let ahead : stream source contract r ≡ b ∷ (bs ++ contract.remaining r.input) =
        ap (λ w. w ++ contract.remaining r.input) e in
      let still : skip (offset_of r) (b ∷ (bs ++ contract.remaining r.input))
          ≡ (offset_of r, b ∷ (bs ++ contract.remaining r.input)) =
        rw (skip, stops b bs refl) refl in
      let fixed : target r ≡ (offset_of r, stream source contract r) = rw (sym ahead) at still in
      scanned-Answers next r (scan_value std r.is_binary r.window) valid fixed
        (ap (λ f. scan_value std f r.window) (sym binary)) rest

  -- Separators are left behind; the record that the stream starts with is the same.
  skipped-target : (r : Reader I) → target (skip_separators r) ≡ target r
  skipped-target r = sym (skip-append r.base_offset r.pos r.window (contract.remaining r.input))

  -- The search for the next record of binary YSON, given fuel for the reads to come, answers by the bytes
  -- of the stream alone. It finds a record exactly as a scan of all of the stream finds it, at the same
  -- offset, with all of its bytes in the window; it ends with nothing only where nothing but separators is
  -- left, and otherwise fails with the input, with the error of the scan, with the record that the end of
  -- the input cut off, or with a record that the limit has no room for.
  pub next_record_len-Answers :
      (fuel : ℕ) (r : Reader I)
      → IsValid source contract r
      → r.is_binary ≡ true
      → budget source contract r < fuel
      → Answers (target r) (kept r) (budget source contract r) (next_record_len std source fuel r)
  unfolding next_record_len
  next_record_len-Answers zero r valid binary fueled = absurd (omega arith)
  next_record_len-Answers (suc fuel) r valid binary fueled =
      let r' : Reader I = skip_separators r in
      let valid' : IsValid source contract r' = record {
        within = omega (arith, length-skip r.pos r.window, valid.within);
        some_room = valid.some_room;
        limited = valid.limited;
        ended = valid.ended;
      } in
      let found : Goal r'
          (examine std source r'.window (fill source fuel >> next_record_len std source fuel) r') =
        examine-Answers (fill source fuel >> next_record_len std source fuel) r' r'.window valid'
          binary refl (skip_stops r.pos r.window)
          (λ wants waits.
            refill fuel r' valid' waits (omega (arith, fueled)) wants (λ next valid'' same less.
              next_record_len-Answers fuel next valid'' (ap (λ k. k.0) same ∙ binary)
                (omega (arith, less, fueled)))) in
      rw (skipped-target r) at found
