-- ===== src/Job/Chunks.antt =====
-- Inputs that hand out their bytes some at a time, after some interruptions, for the tests.
use ytsaurus_rs.Base.{
  ℕ, zero, suc, ◌≤◌, ◌<◌, min, List, [], ◌∷◌, ◌++◌, length, take, drop, ◌≡◌, refl, sym, ap, arith,
  take-append-drop, length-take,
}
use ytsaurus_rs.Job.Reader.{Arrival, got, interrupted, Source}
use ytsaurus_rs.Job.Stream.{Contract}

abbrev pub Chunks : Type 0
Chunks = ℕ × List ℕ

abbrev pub read_chunk : ℕ → ℕ → Chunks → Arrival × Chunks
read_chunk most room (suc n, bytes) = (interrupted, (n, bytes))
read_chunk most room (zero, bytes) =
    (got (take (min most room) bytes), (zero, drop (min most room) bytes))

abbrev pub chunks : ℕ → Source Chunks
chunks most = record { read = read_chunk most }

taken :
    (n : ℕ) (bytes bs : List ℕ) (input' : Chunks)
    → ◌≡◌ {A = Arrival × Chunks} (got (take n bytes), (zero, drop n bytes)) (got bs, input')
    → (bytes ≡ bs ++ input'.1) × (length bs ≤ n) × (input'.0 ≡ zero)
taken n bytes bs input' e =
    let front : take n bytes ≡ bs = cc in
    let back : drop n bytes ≡ input'.1 = cc in
    let count : length (take n bytes) ≡ length bs = ap length front in
    (
      rw (sym front, sym back) (sym (take-append-drop n bytes)),
      omega (arith, count, length-take n bytes),
      cc,
    )

nothing_taken : (n : ℕ) (bytes : List ℕ) → 1 ≤ n → take n bytes ≡ [] → bytes ≡ []
nothing_taken zero bytes some_ e = absurd (omega arith)
nothing_taken (suc n) [] some_ e = refl
nothing_taken (suc n) (b ∷ bs) some_ e = cc

pub delivers :
    (most room : ℕ) (input input' : Chunks) (bs : List ℕ)
    → read_chunk most room input ≡ (got bs, input')
    → (input.1 ≡ bs ++ input'.1) × (length bs ≤ room) × (input'.0 ≤ input.0)
delivers most room (suc n, bytes) input' bs e = cc
delivers most room (zero, bytes) input' bs e =
    let h = taken (min most room) bytes bs input' e in (h.0, omega (arith, h.1), omega (arith, h.2))

pub ends :
    (most room : ℕ) (input input' : Chunks)
    → 1 ≤ most
    → read_chunk most room input ≡ (got [], input')
    → 1 ≤ room
    → input.1 ≡ []
ends most room (suc n, bytes) input' some_ e roomy = cc
ends most room (zero, bytes) input' some_ e roomy =
    nothing_taken (min most room) bytes (omega arith) cc

pub resumes :
    (most room : ℕ) (input input' : Chunks)
    → read_chunk most room input ≡ (interrupted, input')
    → (input'.1 ≡ input.1) × (input'.0 < input.0)
resumes most room (suc n, bytes) input' e =
    let same : (n, bytes) ≡ input' = cc in (ap (λ c. c.1) (sym same), rw (sym same) (omega arith))
resumes most room (zero, bytes) input' e = cc

abbrev pub chunks-Contract : (most : ℕ) → 1 ≤ most → Contract (chunks most)
chunks-Contract most some_ = record {
  remaining = λ input. input.1;
  patience = λ input. input.0;
  delivers = delivers most;
  ends = λ room input input'. ends most room input input' some_;
  resumes = resumes most;
}
