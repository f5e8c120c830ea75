-- ===== src/Flows/Tiling.antt =====
-- The calls that the two loops of the flows make: the pieces of a range, one behind the other.
use open_boot.Base.{
  ℕ, zero, suc, ◌+◌, ◌*◌, ◌-◌, ◌/◌, ◌%◌, ◌^◌, ◌≤◌, ◌<◌, ◌≡◌, refl, sym, ap, ◌∙◌, inl, inr, min, max,
  List, [], ◌∷◌, ◌++◌, append-nil, append_assoc, take-append-drop, length-take, length-drop, Result,
  ok, Bytes, length, take, drop, div_ceil, ltb, ltb→lt, ltb→le, Bool-cases, lt→ltb, le→ltb, subst,
  arith,
}
use native.Mathlib.Nat.{mul-pos}
use open_boot.Base.Actions.{Action, ◌>>◌, >>=-cases}
use open_boot.Flows.Commands.{Device, Call}
use open_boot.Flows.{FlowError, call, erase_loop, erase_region, write_loop, erase_chunk}

-- The calls erase from a up to b, piece by piece, none longer than `max_len`.
abbrev pub EraseTiles : ℕ → ℕ → ℕ → List Call → ℕ → Type 0
EraseTiles block max_len a [] b = a ≡ b
EraseTiles block max_len a (Call.erase addr len blocks ∷ calls) b =
    (addr ≡ a)
    × (0 < len)
    × (len ≤ max_len)
    × (blocks ≡ div_ceil len block)
    × EraseTiles block max_len (a + len) calls b
EraseTiles block max_len a (_ ∷ calls) b = ⊥

-- The calls write the bytes from a on, piece by piece, none longer than `chunk`, up to `rest`.
abbrev pub WriteTiles : ℕ → ℕ → Bytes → List Call → Bytes → Type 0
WriteTiles chunk a bytes [] rest = bytes ≡ rest
WriteTiles chunk a bytes (Call.write addr piece ∷ calls) rest =
    (addr ≡ a)
    × (0 < length piece)
    × (length piece ≤ chunk)
    × (tail : Bytes) × (bytes ≡ piece ++ tail)
    × WriteTiles chunk (a + length piece) tail calls rest
WriteTiles chunk a bytes (_ ∷ calls) rest = ⊥

module _ (d : Device) where
  -- What an action does from s: the calls it makes, with the result, satisfy P.
  abbrev pub Makes :
      {B : Type 0}
      → Action d.State FlowError B
      → (List Call → Result FlowError B → Type 0)
      → d.State
      → Type 0
  Makes m P s = (calls : List Call) × (d.issued (m s).1 ≡ d.issued s ++ calls) × P calls (m s).0

  -- Erased so far, with `done` bytes behind the start at first: a front of the range, and all of it
  -- where the result is a success.
  abbrev pub Erased : ℕ → ℕ → ℕ → ℕ → ℕ → List Call → Result FlowError (Unit {0}) → Type 0
  Erased start total block chunk_len done calls r =
      (x : ℕ) × EraseTiles block chunk_len (start + done) calls x
      × (x ≤ start + total)
      × (r ≡ ok tt → x ≡ start + total)

  module _ (start total block chunk_len : ℕ) (word : start + total ≤ 2 ^ 32)
      (some_chunk : 0 < chunk_len) where
    abbrev len_at : ℕ → ℕ
    len_at done = min chunk_len (total - done)

    abbrev erase_at : ℕ → Action d.State FlowError (Unit {0})
    erase_at done =
        call d (d.erase ((start + done) % 2 ^ 32) (len_at done) (div_ceil (len_at done) block))

    erase_loop_stop :
        (n done : ℕ) (s : d.State)
        → total ≤ done
        → erase_loop d (suc n) start total block chunk_len done s ≡ (ok tt, s)
    unfolding erase_loop
    erase_loop_stop n done s h = rw (erase_loop, le→ltb done total h) refl

    erase_loop_step :
        (n done : ℕ) (s : d.State)
        → done < total
        → erase_loop d (suc n) start total block chunk_len done s
          ≡ (erase_at done >> erase_loop d n start total block chunk_len (done + len_at done)) s
    unfolding erase_loop
    erase_loop_step n done s h = rw (erase_loop, lt→ltb done total h) refl

    piece-Erased :
        (done x : ℕ) (calls : List Call) (r : Result FlowError (Unit {0}))
        → done < total
        → EraseTiles block chunk_len (start + done + len_at done) calls x
        → x ≤ start + total
        → (r ≡ ok tt → x ≡ start + total)
        → Erased start total block chunk_len done
            (Call.erase ((start + done) % 2 ^ 32) (len_at done) (div_ceil (len_at done) block)
              ∷ calls)
            r
    piece-Erased done x calls r h tiles limit end =
        (x, (omega arith, omega arith, omega arith, refl, tiles), limit, end)

    erase_loop-tiles :
        (n done : ℕ) (s : d.State)
        → total - done < n
        → done ≤ total
        → Makes
            (erase_loop d n start total block chunk_len done)
            (Erased start total block chunk_len done)
            s
    erase_loop-tiles zero done s h k = absurd (omega arith)
    erase_loop-tiles (suc n) done s h k = elim (Bool-cases (ltb done total)) [
      | inr e ↦
          let whole : start + done ≡ start + total = omega (arith, ltb→le done total e) in
          rw (erase_loop_stop n done s (ltb→le done total e))
            ([], sym (append-nil (d.issued s)), (start + done, refl, omega arith, λ _. whole))
      | inl e ↦
          let len = len_at done in
          let more = ltb→lt done total e in
          let k' = erase_loop d n start total block chunk_len (done + len) in
          let here = d.issued-erase ((start + done) % 2 ^ 32) len (div_ceil len block) s in
          rw (erase_loop_step n done s more) (elim (>>=-cases (erase_at done) (λ _. k') s) [
            | inl (u, done_ok, eq) ↦
                let (calls, log, body) =
                  erase_loop-tiles n (done + len) (erase_at done s).1 (omega arith) (omega arith) in
                let (x, tiles, limit, end) = body in
                let shift : start + (done + len) ≡ start + done + len = omega arith in
                let tiles' : EraseTiles block chunk_len (start + done + len) calls x =
                  subst (λ a. EraseTiles block chunk_len a calls x) shift tiles in
                let r = (k' (erase_at done s).1).0 in
                let piece = piece-Erased done x calls r more tiles' limit end in
                rw eq (
                  Call.erase ((start + done) % 2 ^ 32) len (div_ceil len block) ∷ calls,
                  log ∙ rw (here, append_assoc),
                  piece,
                )
            | inr (state, failed) ↦
                let r = ((erase_at done >> k') s).0 in
                let piece =
                  piece-Erased done (start + done + len) [] r more refl (omega arith)
                    (λ y. absurd (failed tt y)) in
                (
                  Call.erase ((start + done) % 2 ^ 32) len (div_ceil len block) ∷ [],
                  ap d.issued state ∙ here,
                  piece,
                )
          ])
    ]

  -- For a range below 4 GiB and a block size above 0, `erase_region` erases from the start on, piece by
  -- piece: the pieces follow one another without a
  -- gap, each states how many blocks it has, and none reaches beyond the end. It ends with success
  -- only when they reach it.
  pub erase_region-tiles :
      (start total block : ℕ) (s : d.State)
      → start + total ≤ 2 ^ 32
      → 0 < block
      → Makes
          (erase_region d start total block)
          (Erased start total block (max (erase_chunk / block) 1 * block) 0)
          s
  unfolding erase_region
  erase_region-tiles start total block s word some_block =
      erase_loop-tiles start total block (max (erase_chunk / block) 1 * block) word
        (mul-pos (omega arith) some_block) (suc total) 0 s (omega arith) (omega arith)

  -- Written so far: a front of the bytes, and all of them where the result is a success.
  abbrev pub Written : ℕ → ℕ → ℕ → Bytes → List Call → Result FlowError (Unit {0}) → Type 0
  Written base chunk off bytes calls r =
      (rest : Bytes) × WriteTiles chunk (base + off) bytes calls rest × (r ≡ ok tt → rest ≡ [])

  module _ (base chunk : ℕ) (some_chunk : 0 < chunk) where
    abbrev write_at : ℕ → Bytes → Action d.State FlowError (Unit {0})
    write_at off bytes = call d (d.write ((base + off % 2 ^ 32) % 2 ^ 32) (take chunk bytes))

    piece-Written :
        (off : ℕ) (bytes rest : Bytes) (calls : List Call) (r : Result FlowError (Unit {0}))
        → 0 < length bytes
        → base + off + length bytes ≤ 2 ^ 32
        → WriteTiles chunk (base + (off + min chunk (length bytes))) (drop chunk bytes) calls rest
        → (r ≡ ok tt → rest ≡ [])
        → Written base chunk off bytes
            (Call.write ((base + off % 2 ^ 32) % 2 ^ 32) (take chunk bytes) ∷ calls)
            r
    piece-Written off bytes rest calls r h word tiles end =
        let len = length-take chunk bytes in
        let shift : base + (off + min chunk (length bytes))
            ≡ base + off + length (take chunk bytes) =
          omega arith in
        (
          rest,
          (
            omega arith,
            omega arith,
            omega arith,
            drop chunk bytes,
            sym (take-append-drop chunk bytes),
            subst (λ a. WriteTiles chunk a (drop chunk bytes) calls rest) shift tiles,
          ),
          end,
        )

    write_loop_step :
        (n off : ℕ) (bytes : Bytes) (s : d.State)
        → 0 < length bytes
        → write_loop d (suc n) base chunk off bytes s
          ≡ (write_at off bytes
                >> write_loop d n base chunk (off + min chunk (length bytes)) (drop chunk bytes))
              s
    unfolding write_loop
    write_loop_step n off [] s h = absurd (omega arith)
    write_loop_step n off (b ∷ bs) s h = refl

    -- With a chunk size above 0 and fuel for one round more than there are bytes, below 4 GiB, the write
    -- loop writes from the base on, chunk by chunk: the chunks are at most of that size, not empty,
    -- follow one another without a gap, and are the bytes in order. It ends with success only when
    -- all bytes are written.
    pub write_loop-tiles :
        (n off : ℕ) (bytes : Bytes) (s : d.State)
        → length bytes < n
        → base + off + length bytes ≤ 2 ^ 32
        → Makes (write_loop d n base chunk off bytes) (Written base chunk off bytes) s
    write_loop-tiles zero off bytes s h word = absurd (omega arith)
    write_loop-tiles (suc n) off [] s h word =
        unfold write_loop in ([], sym (append-nil (d.issued s)), ([], refl, λ _. refl))
    write_loop-tiles (suc n) off (b ∷ bs) s h word =
        let bytes = b ∷ bs in
        let k' = write_loop d n base chunk (off + min chunk (length bytes)) (drop chunk bytes) in
        let here = d.issued-write ((base + off % 2 ^ 32) % 2 ^ 32) (take chunk bytes) s in
        let left = length-drop chunk bytes in
        rw (write_loop_step n off bytes s (omega arith))
          (elim (>>=-cases (write_at off bytes) (λ _. k') s) [
            | inl (u, done_ok, eq) ↦
                let (calls, log, body) =
                  write_loop-tiles n (off + min chunk (length bytes)) (drop chunk bytes)
                    (write_at off bytes s).1 (omega arith) (omega arith) in
                let (rest, tiles, end) = body in
                let r = (k' (write_at off bytes s).1).0 in
                let piece = piece-Written off bytes rest calls r (omega arith) word tiles end in
                rw eq (
                  Call.write ((base + off % 2 ^ 32) % 2 ^ 32) (take chunk bytes) ∷ calls,
                  log ∙ rw (here, append_assoc),
                  piece,
                )
            | inr (state, failed) ↦
                let r = ((write_at off bytes >> k') s).0 in
                let piece =
                  piece-Written off bytes (drop chunk bytes) [] r (omega arith) word refl
                    (λ y. absurd (failed tt y)) in
                (
                  Call.write ((base + off % 2 ^ 32) % 2 ^ 32) (take chunk bytes) ∷ [],
                  ap d.issued state ∙ here,
                  piece,
                )
          ])
