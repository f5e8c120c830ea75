-- ===== src/Transport/Qmk/ByteReads.antt =====
-- A byte that is read from a tunnel.
use open_boot.Base.{
  ℕ, zero, suc, ◌+◌, ◌≤◌, ◌<◌, ◌≡◌, ◌≢◌, refl, [], ◌∷◌, Option, some, Result, ok, fault, Bytes,
  length, arith,
}
use open_boot.Transport.{IoError}
use open_boot.Transport.Qmk.{ReportLink, Qmk, Rx}
use open_boot.Transport.Qmk.Pipe.{pump, pop_front, byte_loop, pump_byte}
use open_boot.Transport.Qmk.Reads.{Reads-refl, measure, pump-Pumps, ends_loop, goes_on, Loops}

module _ (link : ReportLink) where
  pop_front-Loops :
      (d : ℕ) (q : Bytes) (s : Qmk link.State)
      → length q ≤ length s.rx
      → Loops link d (pop_front link q s) s
  pop_front-Loops d [] s h = record {
    reads = Reads-refl link s;
    runs = λ z. cc;
    least = omega arith;
    bytes = omega arith;
  }
  pop_front-Loops d (b ∷ bs) s h = record {
    reads = record {
      time = omega arith;
      log = refl;
      passthrough = refl;
      entered = refl;
      booted = refl;
    };
    runs = λ z. cc;
    least = omega arith;
    bytes = omega arith;
  }

  pop_front-spends :
      (d : ℕ) (q : Bytes) (s : Qmk link.State) (b : ℕ)
      → length q ≤ length s.rx
      → (pop_front link q s).0 ≡ ok (some b)
      → measure link d (pop_front link q s).1 < measure link d s
  pop_front-spends d [] s b h e = cc
  pop_front-spends d (x ∷ q) s b h e = omega arith

  byte_loop-Loops :
      (n until d : ℕ) (s : Qmk link.State)
      → until ≤ d
      → link.budget until s.link < n
      → Loops link d (byte_loop link n until s) s
  unfolding byte_loop
  byte_loop-Loops zero until d s h k = absurd (omega arith)
  byte_loop-Loops (suc n) until d s h k =
      let p = pump-Pumps link until d s h in
      let q = pump-Pumps link until until s (omega arith) in
      let s' = (pump link until s).1 in
      let more : ((x : Rx)
          → (pump link until s).0 ≡ ok (some x)
          → Loops link d (byte_loop link n until s') s) =
        λ x e.
          goes_on link until d s (byte_loop link n until s') p
            (byte_loop-Loops n until d s' h (omega (arith, q.spends x e))) in
      let popped : Loops link d (pop_front link s'.rx s') s =
        goes_on link until d s (pop_front link s'.rx s') p
          (pop_front-Loops d s'.rx s' (omega arith)) in
      let stop : ((x : Result IoError (Option ℕ)) → x ≢ fault → Loops link d (x, s') s) =
        λ x e. ends_loop link until d s x p e in
      grind (arith, more, stop, popped, p.runs)

  byte_loop-spends :
      (n until d : ℕ) (s : Qmk link.State) (b : ℕ)
      → until ≤ d
      → (byte_loop link n until s).0 ≡ ok (some b)
      → measure link d (byte_loop link n until s).1 < measure link d s
  unfolding byte_loop
  byte_loop-spends zero until d s b h e = cc
  byte_loop-spends (suc n) until d s b h e =
      let p = pump-Pumps link until d s h in
      let s' = (pump link until s).1 in
      grind (arith, p.bytes, byte_loop-spends n until d s' b h, pop_front-spends d s'.rx s' b)

  module _ (wait d : ℕ) (s : Qmk link.State) (early : link.now s.link + wait ≤ d) where
    -- A byte is taken from those in hand, or read.
    pub pump_byte-Loops : Loops link d (pump_byte link wait s) s
    unfolding pump_byte
    pump_byte-Loops =
        let until = link.now s.link + wait in
        let n = suc (link.budget until s.link) in
        grind (
          arith,
          byte_loop-Loops n until d s early (omega arith),
          pop_front-Loops d s.rx s (omega arith),
        )

    pub pump_byte-spends :
        (b : ℕ)
        → (pump_byte link wait s).0 ≡ ok (some b)
        → measure link d (pump_byte link wait s).1 < measure link d s
    unfolding pump_byte
    pump_byte-spends b e =
        let until = link.now s.link + wait in
        grind (
          arith,
          pop_front-spends d s.rx s b,
          byte_loop-spends (suc (link.budget until s.link)) until d s b early,
        )
