-- ===== src/Job/Stream/Fill.antt =====
-- What a refill of the buffer does to the stream: nothing but bring bytes of it nearer.
use ytsaurus_rs.Base.{
  ℕ, zero, suc, ◌+◌, ◌-◌, ◌*◌, ◌≤◌, ◌<◌, min, List, [], ◌∷◌, ◌++◌, length, false, ltb, leb, ◌==◌,
  ◌≡◌, refl, sym, ap, ◌∙◌, arith, Result, ok, err, Bool-cases, inl, inr, append_assoc,
  length-append,
}
use ytsaurus_rs.Base.Actions.{continue_with}
use ytsaurus_rs.Job.{JobError, read_failed, record_too_large}
use ytsaurus_rs.Job.Reader.{
  Arrival, got, interrupted, broken, Source, Reader, Reading, offset_of, filled, usize_max, compact,
  grow, receive, read_once, fill,
}
use ytsaurus_rs.Job.Stream.{Contract, Kept, kept, stream, budget, IsValid}

compacted :
    {I : Type 0} (r : Reader I)
    → compact r ≡ record r { pos = 0; base_offset = r.base_offset + r.pos }
compacted r = elim (Bool-cases (ltb 0 r.pos)) [
  | inl moved ↦ rw moved refl
  | inr stays ↦
      let start : r.pos ≡ 0 = ground arith in
      let base : r.base_offset + r.pos ≡ r.base_offset = omega arith in
      rw (stays, base) (ap (λ p. record r { pos = p }) start)
]

module _ {I : Type 0} (source : Source I) (contract : Contract source) where
  -- A refill of a reader of `bytes` at `offset`, with `held` of them in its window.
  abbrev pub Refilled : ℕ → List ℕ → Kept → ℕ → ℕ → Result JobError (Unit {0} × Reader I) → Type 0
  Refilled offset bytes kept_ held limit (ok (u, r)) =
      IsValid source contract r
      × (offset_of r ≡ offset)
      × (stream source contract r ≡ bytes)
      × (kept r ≡ kept_)
      × (budget source contract r < limit)
  Refilled offset bytes kept_ held limit (err (record_too_large at_ most)) =
      (at_ ≡ offset) × (most ≡ kept_.1) × (most ≤ held) × (1 ≤ held)
  Refilled offset bytes kept_ held limit (err (read_failed message)) = Unit {0}
  Refilled offset bytes kept_ held limit (err e) = ⊥

  later-Refilled :
      (offset : ℕ) (bytes : List ℕ) (kept_ : Kept) (held limit limit' : ℕ)
      (r : Result JobError (Unit {0} × Reader I))
      → limit ≤ limit'
      → Refilled offset bytes kept_ held limit r
      → Refilled offset bytes kept_ held limit' r
  later-Refilled offset bytes kept_ held limit limit' (ok (u, r)) le h =
      (h.0, h.1, h.2, h.3, omega (arith, h.4))
  later-Refilled offset bytes kept_ held limit limit' (err (record_too_large at_ most)) le h = h
  later-Refilled offset bytes kept_ held limit limit' (err (read_failed message)) le h = tt
  later-Refilled offset bytes kept_ held limit limit' (err _) le h = h

  -- A reader whose input answers with some bytes of the stream.
  received :
      (r : Reader I) (input : I) (b : ℕ) (bs : List ℕ)
      → IsValid source contract r
      → r.input_done ≡ false
      → source.read (r.capacity - filled r) r.input ≡ (got (b ∷ bs), input)
      → Refilled
          (offset_of r)
          (stream source contract r)
          (kept r)
          (length r.window)
          (budget source contract r)
          (ok (tt, record r { input = input; window = r.window ++ (b ∷ bs) }))
  received r input b bs valid waits reads =
      let h = contract.delivers (r.capacity - filled r) r.input input (b ∷ bs) reads in
      let longer = length-append r.window (b ∷ bs) in
      let left = length-append (b ∷ bs) (contract.remaining input) in
      let same : length (contract.remaining r.input)
          ≡ length ((b ∷ bs) ++ contract.remaining input) =
        ap length h.0 in
      (
        record {
          within = omega (arith, longer, h.1, valid.within);
          some_room = valid.some_room;
          limited = valid.limited;
          ended = λ e. cc;
        },
        refl,
        rw (append_assoc r.window (b ∷ bs) (contract.remaining input), sym h.0) refl,
        refl,
        rw waits (omega (arith, left, same, h.2)),
      )

  receive-Refilled :
      (again : Reading I (Unit {0})) (r : Reader I) (answer : Arrival) (input : I)
      → IsValid source contract r
      → r.input_done ≡ false
      → 1 ≤ r.capacity - filled r
      → source.read (r.capacity - filled r) r.input ≡ (answer, input)
      → (contract.patience input < contract.patience r.input
          → contract.remaining input ≡ contract.remaining r.input
          → Refilled
              (offset_of r)
              (stream source contract r)
              (kept r)
              (length r.window)
              (budget source contract r)
              (again (record r { input = input })))
      → Refilled
          (offset_of r)
          (stream source contract r)
          (kept r)
          (length r.window)
          (budget source contract r)
          (receive again (answer, input) r)
  receive-Refilled again r (got []) input valid waits room reads rest =
      let h = contract.delivers (r.capacity - filled r) r.input input [] reads in
      let over = contract.ends (r.capacity - filled r) r.input input reads room in
      (
        record {
          within = valid.within;
          some_room = valid.some_room;
          limited = valid.limited;
          ended = λ e. sym h.0 ∙ over;
        },
        refl,
        rw h.0 refl,
        refl,
        rw (waits, h.0) (omega (arith, h.2)),
      )
  receive-Refilled again r (got (b ∷ bs)) input valid waits room reads rest =
      received r input b bs valid waits reads
  receive-Refilled again r interrupted input valid waits room reads rest =
      let h = contract.resumes (r.capacity - filled r) r.input input reads in rest h.1 h.0
  receive-Refilled again r (broken message) input valid waits room reads rest = tt

  read_once-Refilled :
      (fuel : ℕ) (r : Reader I)
      → IsValid source contract r
      → r.input_done ≡ false
      → 1 ≤ r.capacity - filled r
      → contract.patience r.input < fuel
      → Refilled
          (offset_of r)
          (stream source contract r)
          (kept r)
          (length r.window)
          (budget source contract r)
          (read_once source fuel r)
  unfolding read_once
  read_once-Refilled zero r valid waits room fueled = absurd (omega arith)
  read_once-Refilled (suc fuel) r valid waits room fueled =
      receive-Refilled (read_once source fuel) r (source.read (r.capacity - filled r) r.input).0
        (source.read (r.capacity - filled r) r.input).1 valid waits room refl
        (λ less same.
          let r' : Reader I = record r {
            input = (source.read (r.capacity - filled r) r.input).1;
          } in
          let valid' : IsValid source contract r' = record {
            within = valid.within;
            some_room = valid.some_room;
            limited = valid.limited;
            ended = λ e. same ∙ valid.ended e;
          } in
          let bytes : stream source contract r' ≡ stream source contract r =
            ap (◌++◌ r.window) same in
          let fewer : budget source contract r' ≤ budget source contract r =
            rw same (omega arith) in
          let found : Refilled (offset_of r) (stream source contract r) (kept r) (length r.window)
              (budget source contract r') (read_once source fuel r') =
            rw (sym bytes) (read_once-Refilled fuel r' valid' waits room (omega arith)) in
          later-Refilled (offset_of r) (stream source contract r) (kept r) (length r.window)
            (budget source contract r') (budget source contract r) (read_once source fuel r') fewer
            found)

  grown :
      (fuel : ℕ) (r : Reader I)
      → IsValid source contract r
      → r.pos ≡ 0
      → r.input_done ≡ false
      → contract.patience r.input < fuel
      → Refilled
          (offset_of r)
          (stream source contract r)
          (kept r)
          (length r.window)
          (budget source contract r)
          (continue_with (grow r) (λ u. read_once source fuel))
  grown fuel r valid start waits fueled = elim (Bool-cases (filled r == r.capacity)) [
    | inr roomy ↦
        let room : 1 ≤ r.capacity - filled r = ground (arith, valid.within) in
        rw roomy (read_once-Refilled fuel r valid waits room fueled)
    | inl full ↦ elim (Bool-cases (leb r.max_record_bytes r.capacity)) [
      | inl over ↦
          let most : r.max_record_bytes ≤ length r.window = ground arith in
          let base : r.base_offset ≡ r.base_offset + r.pos = omega arith in
          rw (full, over) (base, refl, most, ground (arith, valid.some_room))
      | inr under ↦
          let r' : Reader I = record r {
            capacity = min (min (r.capacity * 2) usize_max) r.max_record_bytes;
          } in
          let used : filled r ≡ r.capacity = ground arith in
          let small : r.capacity < r.max_record_bytes = ground arith in
          let bigger : r.capacity < r'.capacity = omega (arith, valid.some_room, valid.limited) in
          let valid' : IsValid source contract r' = record {
            within = omega (arith, valid.within);
            some_room = omega (arith);
            limited = valid.limited;
            ended = valid.ended;
          } in
          rw (full, under) (read_once-Refilled fuel r' valid' waits (omega arith) fueled)
    ]
  ]

  -- A refill keeps the stream and where it stands, and brings some of it into the window or sees its end;
  -- it fails with the input, or when the window is as large as the limit.
  pub fill-Refilled :
      (fuel : ℕ) (r : Reader I)
      → IsValid source contract r
      → r.input_done ≡ false
      → contract.patience r.input < fuel
      → Refilled
          (offset_of r)
          (stream source contract r)
          (kept r)
          (length r.window)
          (budget source contract r)
          (fill source fuel r)
  unfolding fill
  fill-Refilled fuel r valid waits fueled =
      let c : Reader I = record r { pos = 0; base_offset = r.base_offset + r.pos } in
      let valid' : IsValid source contract c = record {
        within = omega (arith, valid.within);
        some_room = valid.some_room;
        limited = valid.limited;
        ended = valid.ended;
      } in
      let base : r.base_offset + r.pos + 0 ≡ r.base_offset + r.pos = omega arith in
      let found : Refilled (offset_of r) (stream source contract r) (kept r) (length r.window)
          (budget source contract r) (continue_with (grow c) (λ u. read_once source fuel)) =
        rw base at (grown fuel c valid' refl waits fueled) in
      rw (compacted r) found
