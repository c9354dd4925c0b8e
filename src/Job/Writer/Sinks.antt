-- ===== src/Job/Writer/Sinks.antt =====
-- What the tables of a writer hold behind some writes, and that a reader of one of them hands out its
-- rows.
use Prim.Native.String.{String}
use ytsaurus_rs.Base.{
  ℕ, zero, suc, List, [], ◌∷◌, ◌++◌, Option, none, some, Bool, true, false, if◌then◌else◌, ◌≡◌,
  refl, sym, ap, ◌∙◌, Result, ok, err, Bool-cases, inl, inr, append_assoc, append-nil,
}
use ytsaurus_rs.Job.Writer.{
  WriterError, Sink, JobWriter, Routing, descriptors, table_switches, route, check_table, checked,
  emit, emit_row, outcome, and_then, at_sink, write_bytes, write_raw,
}

-- Writes of encoded rows to tables, all of which succeed.
pub data Written {K : Type 0} (sink : Sink K)
    : JobWriter K → List (ℕ × List ℕ) → JobWriter K → Type 0 where
  nothing : {w : JobWriter K} → Written sink w [] w
  written :
      {w w' w'' : JobWriter K} {rows : List (ℕ × List ℕ)} (table : ℕ) (bytes : List ℕ)
      → write_raw sink table bytes w ≡ (ok tt, w')
      → Written sink w' rows w''
      → Written sink w ((table, bytes) ∷ rows) w''

abbrev pub same_table : ℕ → ℕ → Bool
same_table zero zero = true
same_table zero (suc t) = false
same_table (suc n) zero = false
same_table (suc n) (suc t) = same_table n t

abbrev pub rows_for : ℕ → List (ℕ × List ℕ) → List (List ℕ)
rows_for t [] = []
rows_for t ((table, bytes) ∷ rows) =
    let rest = rows_for t rows in if same_table table t then bytes ∷ rest else rest

-- The rows of a table, each with its separator.
abbrev pub joined : List (List ℕ) → List ℕ
joined [] = []
joined (bytes ∷ rows) = (bytes ++ (b';' ∷ [])) ++ joined rows

-- What a sink holds, which a write that succeeds extends by its bytes.
pub record Contents {K : Type 0} (sink : Sink K) : Type 0 where
  pub holds : K → List ℕ
  pub appends :
      (bytes : List ℕ) (k k' : K)
      → sink.write_all bytes k ≡ (none, k')
      → holds k' ≡ holds k ++ bytes

module _ {K : Type 0} (sink : Sink K) (contents : Contents sink) where
  abbrev pub held_at : ℕ → List K → List ℕ
  held_at t [] = []
  held_at zero (k ∷ ks) = contents.holds k
  held_at (suc t) (k ∷ ks) = held_at t ks

  emitted :
      (bytes : List ℕ) (k k' : K) (p : Option String × K)
      → sink.write_all bytes k ≡ p
      → and_then sink p (sink.write_all (b';' ∷ [])) ≡ (none, k')
      → contents.holds k' ≡ contents.holds k ++ (bytes ++ (b';' ∷ []))
  emitted bytes k k' (none, middle) e h =
      contents.appends (b';' ∷ []) middle k' h
      ∙ rw (contents.appends bytes k middle e) (append_assoc (contents.holds k) bytes (b';' ∷ []))
  emitted bytes k k' (some source, middle) e h = cc

  outcome_ok :
      (table : ℕ) (failed : Option String) → outcome sink table failed ≡ ok tt → failed ≡ none
  outcome_ok table none e = refl
  outcome_ok table (some source) e = cc

  at_sink-held :
      (table n t : ℕ) (bytes : List ℕ) (ks ks' : List K)
      → at_sink sink table n (emit_row sink bytes) ks ≡ (ok tt, ks')
      → held_at t ks' ≡ held_at t ks ++ (if same_table n t then bytes ++ (b';' ∷ []) else [])
  unfolding at_sink
  at_sink-held table n t bytes [] ks' e = cc
  at_sink-held table zero t bytes (k ∷ ks) ks' e =
      let done : (emit_row sink bytes k).0 ≡ none =
        outcome_ok table (emit_row sink bytes k).0 (ap (λ p. p.0) e) in
      let answers : emit_row sink bytes k ≡ (none, (emit_row sink bytes k).1) =
        ap (λ o. (o, (emit_row sink bytes k).1)) done in
      let grown = emitted bytes k (emit_row sink bytes k).1 (sink.write_all bytes k) refl answers in
      ap (held_at t) (sym (ap (λ p. p.1) e)) ∙ first t (emit_row sink bytes k).1 grown
    where
      first :
          (t : ℕ) (k' : K)
          → contents.holds k' ≡ contents.holds k ++ (bytes ++ (b';' ∷ []))
          → held_at t (k' ∷ ks)
            ≡ held_at t (k ∷ ks) ++ (if same_table zero t then bytes ++ (b';' ∷ []) else [])
      first zero k' h = h
      first (suc t) k' h = sym (append-nil (held_at t ks))
  at_sink-held table (suc n) t bytes (k ∷ ks) ks' e =
      let rest = at_sink sink table n (emit_row sink bytes) ks in
      let done : rest.0 ≡ ok tt = ap (λ p. p.0) e in
      let tail : rest ≡ (ok tt, rest.1) = ap (λ o. (o, rest.1)) done in
      ap (held_at t) (sym (ap (λ p. p.1) e))
      ∙ later t rest.1 tail (λ i. at_sink-held table n i bytes ks rest.1 tail)
    where
      later :
          (t : ℕ) (tables : List K)
          → at_sink sink table n (emit_row sink bytes) ks ≡ (ok tt, tables)
          → ((i : ℕ)
              → held_at i tables
                ≡ held_at i ks ++ (if same_table n i then bytes ++ (b';' ∷ []) else []))
          → held_at t (k ∷ tables)
            ≡ held_at t (k ∷ ks) ++ (if same_table (suc n) t then bytes ++ (b';' ∷ []) else [])
      later zero tables h rest = sym (append-nil (contents.holds k))
      later (suc t) tables h rest = rest t

  -- What a write of a row to a table leaves behind, if it succeeds.
  abbrev Extended : ℕ → ℕ → List ℕ → JobWriter K → JobWriter K → Type 0
  Extended table t bytes w w' =
      (w'.routing ≡ descriptors)
      × (held_at t w'.tables
          ≡ held_at t w.tables ++ (if same_table table t then bytes ++ (b';' ∷ []) else []))

  routed :
      (table t : ℕ) (bytes : List ℕ) (w w' : JobWriter K) (r : Routing)
      → r ≡ descriptors
      → ◌≡◌ {A = Result WriterError (Unit {0}) × JobWriter K}
          (
            (at_sink sink table
                (route table r).0
                (emit sink (route table r).1 w.is_binary bytes)
                w.tables).0,
            record w {
              tables =
                  (at_sink sink table
                    (route table r).0
                    (emit sink (route table r).1 w.is_binary bytes)
                    w.tables).1;
              routing = (route table r).2;
            },
          )
          (ok tt, w')
      → Extended table t bytes w w'
  routed table t bytes w w' descriptors one e =
      let found = at_sink sink table table (emit_row sink bytes) w.tables in
      let done : found.0 ≡ ok tt = ap (λ p. p.0) e in
      let behind : record w { tables = found.1; routing = descriptors } ≡ w' = ap (λ p. p.1) e in
      let tail : found ≡ (ok tt, found.1) = ap (λ o. (o, found.1)) done in
      (
        sym (ap (λ v. v.routing) behind),
        ap (λ v. held_at t v.tables) (sym behind)
            ∙ at_sink-held table table t bytes w.tables found.1 tail,
      )
  routed table t bytes w w' (table_switches current) one e = cc

  write_raw-held :
      (table t : ℕ) (bytes : List ℕ) (w w' : JobWriter K)
      → w.routing ≡ descriptors
      → write_raw sink table bytes w ≡ (ok tt, w')
      → Extended table t bytes w w'
  unfolding write_raw
  write_raw-held table t bytes w w' one e = go (check_table table w) e
    where
      go :
          (c : Result WriterError (Unit {0}))
          → checked sink c w (write_bytes sink table bytes w) ≡ (ok tt, w')
          → Extended table t bytes w w'
      go (err e') h = cc
      go (ok u) h = routed table t bytes w w' w.routing one h

  joined-append :
      (t table : ℕ) (bytes : List ℕ) (rows : List (ℕ × List ℕ))
      → (if same_table table t then bytes ++ (b';' ∷ []) else []) ++ joined (rows_for t rows)
        ≡ joined (rows_for t ((table, bytes) ∷ rows))
  joined-append t table bytes rows = elim (Bool-cases (same_table table t)) [
    | inl same ↦ rw same refl
    | inr other ↦ rw other refl
  ]

  -- Behind writes that succeed, each sink of a writer with one for each table holds, behind what it held,
  -- the rows that were written to its table, in their order and each with its separator, and nothing of
  -- another table.
  pub Written-held_at :
      {w w' : JobWriter K} {rows : List (ℕ × List ℕ)} (t : ℕ)
      → w.routing ≡ descriptors
      → Written sink w rows w'
      → held_at t w'.tables ≡ held_at t w.tables ++ joined (rows_for t rows)
  Written-held_at {w} t one nothing = sym (append-nil (held_at t w.tables))
  Written-held_at {w} t one (written {w' = middle} {rows = rows} table bytes e rest) =
      let h = write_raw-held table t bytes w middle one e in
      Written-held_at t h.0 rest
      ∙ rw h.1 (
          append_assoc (held_at t w.tables)
            (if same_table table t then bytes ++ (b';' ∷ []) else []) (joined (rows_for t rows))
          ∙ ap (λ bs. held_at t w.tables ++ bs) (joined-append t table bytes rows))
