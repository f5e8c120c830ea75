-- ===== src/Flows/Stepping.antt =====
-- What every command of the client keeps, `flash` keeps.
use open_boot.Base.{
  ℕ, zero, suc, ◌+◌, ◌*◌, ◌-◌, ◌%◌, ◌^◌, ◌≤◌, ◌≡◌, sym, subst, inl, inr, ◌/◌, min, max, Bool, true,
  false, [], ◌∷◌, ok, Bytes, length, take, drop, length-take, div_ceil, arith,
}
use open_boot.Base.Actions.{Action, lift, ◌>>=◌, >>=-cases}
use open_boot.Proto.Consts.{max_write_data}
use open_boot.Proto.Crc32.{Crc32}
use open_boot.Image.{Image}
use open_boot.Bundle.Source.{Source}
use open_boot.Client.Errors.{BootMode}
use open_boot.Flows.Commands.{Device}
use open_boot.Flows.{
  FlowError, FlashOpts, FlashPlan, VerifyPlan, plan_flash, choose, call, client_error, erase_chunk,
  erase_loop, erase_region, write_loop, commit_image, compare_crc, check_written, leave,
  execute_flash, flash,
}
use open_boot.Flows.Session.{call-ok, plan_flash-sizes}

module _ (d : Device) (P : d.State → Type 0) (hello-step : (s : d.State) → P s → P (d.hello s).1)
    (erase-step : (a l b : ℕ) (s : d.State) → P s → P (d.erase a l b s).1)
    (write-step : (a : ℕ) (bs : Bytes) (s : d.State)
      → length bs ≤ max_write_data
      → P s
      → P (d.write a bs s).1)
    (commit-step : (l c : ℕ) (s : d.State) → P s → P (d.commit l c s).1)
    (crc-step : (a l : ℕ) (s : d.State) → P s → P (d.crc a l s).1)
    (boot-step : (m : BootMode) (s : d.State) → P s → P (d.boot m s).1) where
  bind-step :
      {A B : Type 0} (m : Action d.State FlowError A) (f : A → Action d.State FlowError B)
      (s : d.State)
      → P (m s).1
      → ((a : A) → (m s).0 ≡ ok a → P (f a (m s).1).1)
      → P ((m >>= f) s).1
  bind-step m f s h k = elim (>>=-cases m f s) [
    | inl (a, gives_a, eq) ↦ subst (λ r. P r.1) (sym eq) (k a gives_a)
    | inr (same, failed) ↦ subst P (sym same) h
  ]

  erase_loop-step :
      (n start total block len done : ℕ) (s : d.State)
      → P s
      → P (erase_loop d n start total block len done s).1
  unfolding erase_loop
  erase_loop-step zero start total block len done s h = h
  erase_loop-step (suc n) start total block len done s h =
      let l = min len (total - done) in
      let m = call d (d.erase ((start + done) % 2 ^ 32) l (div_ceil l block)) in
      let more =
        bind-step m (λ _. erase_loop d n start total block len (done + l)) s
          (erase-step ((start + done) % 2 ^ 32) l (div_ceil l block) s h)
          (λ u e.
            erase_loop-step n start total block len (done + l) (m s).1
              (erase-step ((start + done) % 2 ^ 32) l (div_ceil l block) s h)) in
      grind (arith, h, more)

  write_loop-step :
      (n base chunk off : ℕ) (rest : Bytes) (s : d.State)
      → chunk ≤ max_write_data
      → P s
      → P (write_loop d n base chunk off rest s).1
  unfolding write_loop
  write_loop-step zero base chunk off rest s k h = h
  write_loop-step (suc n) base chunk off [] s k h = h
  write_loop-step (suc n) base chunk off (b ∷ rest) s k h =
      let a = (base + off % 2 ^ 32) % 2 ^ 32 in
      let piece = take chunk (b ∷ rest) in
      let one = write-step a piece s (omega (arith, length-take chunk (b ∷ rest))) h in
      bind-step (call d (d.write a piece)) _ s one (λ u e.
        write_loop-step n base chunk (off + min chunk (length (b ∷ rest))) (drop chunk (b ∷ rest))
          (d.write a piece s).1 k one)

  compare_crc-step : (base len local : ℕ) (s : d.State) → P s → P (compare_crc d base len local s).1
  unfolding compare_crc
  compare_crc-step base len local s h =
      bind-step (call d (d.crc base len)) _ s (crc-step base len s h)
        (λ c e. let one = crc-step base len s h in grind (arith, one))

  check_written-step :
      (v : VerifyPlan) (base len crc : ℕ) (s : d.State)
      → P s
      → P (check_written d v base len crc s).1
  unfolding check_written
  check_written-step VerifyPlan.commit_plus_live_crc base len crc s h =
      compare_crc-step base (len % 2 ^ 32) crc s h
  check_written-step VerifyPlan.commit_only base len crc s h = h
  check_written-step VerifyPlan.skipped base len crc s h = h

  leave-step : (boot : Bool) (s : d.State) → P s → P (leave d boot s).1
  unfolding leave
  leave-step true s h = boot-step BootMode.app s h
  leave-step false s h = let one = boot-step BootMode.stay s h in grind (arith, one, h)

  execute_flash-step :
      (image : Image) (p : FlashPlan) (s : d.State)
      → p.chunk ≤ max_write_data
      → P s
      → P (execute_flash d image p s).1
  unfolding execute_flash commit_image erase_region
  execute_flash-step image p s k h =
      let blocks = max (erase_chunk / p.block) 1 in
      let e1 =
        erase_loop-step (suc p.erase_len) image.base p.erase_len p.block (blocks * p.block) 0 s h in
      bind-step (erase_region d image.base p.erase_len p.block) _ s e1 λ u1 q1.
        let s1 = (erase_region d image.base p.erase_len p.block s).1 in
        let e2 = write_loop-step (suc p.len) image.base p.chunk 0 image.bytes s1 k e1 in
        bind-step (write_loop d (suc p.len) image.base p.chunk 0 image.bytes) _ s1 e2 λ u2 q2.
          let s2 = (write_loop d (suc p.len) image.base p.chunk 0 image.bytes s1).1 in
          let e3 = commit-step (p.len % 2 ^ 32) p.crc s2 e2 in
          bind-step (commit_image d (p.len % 2 ^ 32) p.crc) _ s2 e3 λ u3 q3.
            let s3 = (commit_image d (p.len % 2 ^ 32) p.crc s2).1 in
            let e4 = check_written-step p.verify image.base p.len p.crc s3 e3 in
            bind-step (check_written d p.verify image.base p.len p.crc) _ s3 e4
              λ u4 q4. leave-step p.boot (check_written d p.verify image.base p.len p.crc s3).1 e4

  pub flash-step :
      (crc : Crc32) (source : Source) (opts : FlashOpts) (s : d.State)
      → P s
      → P (flash d crc source opts s).1
  unfolding flash
  flash-step crc source opts s h =
      let h1 = hello-step s h in
      let s1 = (d.hello s).1 in
      bind-step (call d d.hello) _ s h1 λ info e.
        let u = d.hello-IsUsable s info (call-ok client_error (d.hello s).0 info e) in
        bind-step (lift (choose source info)) _ s1 h1 λ image e1.
          bind-step (lift (plan_flash crc info image opts)) _ s1 h1 λ p e2.
            let sizes = plan_flash-sizes crc info image opts p e2 in
            let run = execute_flash-step image p s1 (omega (arith, sizes.0, u.chunk_limit)) h1 in
            grind (arith, run, h1)
