-- ===== src/Flows/Ending.antt =====
-- `flash` ends with a result.
use open_boot.Base.{
  ℕ, zero, suc, ◌+◌, ◌*◌, ◌-◌, ◌/◌, ◌%◌, ◌^◌, ◌≤◌, ◌<◌, ◌≡◌, ◌≢◌, refl, min, max, Bool, true, false,
  [], ◌∷◌, Result, ok, err, fault, Bytes, length, take, drop, length-take, length-drop, ltb,
  div_ceil, arith, map_err,
}
use native.Mathlib.Nat.{suc-mul}
use open_boot.Base.Actions.{Action, lift, and_then, ◌>>=◌, ◌>>◌}
use open_boot.Proto.Consts.{max_write_data}
use open_boot.Proto.Crc32.{Crc32}
use open_boot.Proto.DeviceInfo.{DeviceInfo, IsUsable}
use open_boot.Image.{Image}
use open_boot.Bundle.Source.{Source, check_family, image_for_base}
use open_boot.Client.Errors.{BootMode}
use open_boot.Flows.Commands.{Device}
use open_boot.Flows.{
  FlowError, FlashOpts, FlashPlan, VerifyPlan, plan_flash, choose, call, client_error, erase_chunk,
  erase_loop, erase_region, write_loop, commit_image, compare_crc, check_written, leave,
  execute_flash, flash, map_commit_mismatch,
}
use open_boot.Flows.Session.{call-ok, plan_flash-sizes}

mul-pos : (a b : ℕ) → 0 < a → 0 < b → 0 < a * b
mul-pos zero b h k = absurd (omega arith)
mul-pos (suc a) b h k = omega (arith, suc-mul a b)

pub map_err-ne-fault :
    {E F A : Type 0} (f : E → F) (r : Result E A) → r ≢ fault → map_err f r ≢ fault
map_err-ne-fault f (ok a) h e = cc
map_err-ne-fault f (err x) h e = cc
map_err-ne-fault f fault h e = h refl

plan_flash-ne-fault :
    (crc : Crc32) (info : DeviceInfo) (image : Image) (opts : FlashOpts)
    → IsUsable info
    → plan_flash crc info image opts ≢ fault
unfolding plan_flash
plan_flash-ne-fault crc info image opts u e = ground (arith, u.block, u.chunk)

choose-ne-fault : (source : Source) (info : DeviceInfo) → choose source info ≢ fault
unfolding choose check_family image_for_base
choose-ne-fault source info e = ground arith

plan_flash-len :
    (crc : Crc32) (info : DeviceInfo) (image : Image) (opts : FlashOpts) (p : FlashPlan)
    → plan_flash crc info image opts ≡ ok p
    → p.len ≡ length image.bytes
unfolding plan_flash
plan_flash-len crc info image opts p e = ground arith

module _ (d : Device) (hello-ends : (s : d.State) → (d.hello s).0 ≢ fault)
    (erase-ends : (a l b : ℕ) (s : d.State) → (d.erase a l b s).0 ≢ fault)
    (write-ends : (a : ℕ) (bs : Bytes) (s : d.State)
      → length bs ≤ max_write_data
      → (d.write a bs s).0 ≢ fault)
    (commit-ends : (l c : ℕ) (s : d.State) → (d.commit l c s).0 ≢ fault)
    (crc-ends : (a l : ℕ) (s : d.State) → (d.crc a l s).0 ≢ fault)
    (boot-ends : (m : BootMode) (s : d.State) → (d.boot m s).0 ≢ fault) where
  bind-ends :
      {A B : Type 0} (m : Action d.State FlowError A) (f : A → Action d.State FlowError B)
      (s : d.State)
      → (m s).0 ≢ fault
      → ((a : A) → (m s).0 ≡ ok a → (f a (m s).1).0 ≢ fault)
      → ((m >>= f) s).0 ≢ fault
  bind-ends {A} {B} m f s h k = split (m s).0 h k
    where
      split :
          (r : Result FlowError A)
          → r ≢ fault
          → ((a : A) → r ≡ ok a → (f a (m s).1).0 ≢ fault)
          → (and_then f r (m s).1).0 ≢ fault
      split (ok a) h k = k a refl
      split (err x) h k = λ e. cc
      split fault h k = absurd (h refl)

  erase_loop-ends :
      (n start total block len done : ℕ) (s : d.State)
      → 0 < len
      → total - done < n
      → (erase_loop d n start total block len done s).0 ≢ fault
  unfolding erase_loop
  erase_loop-ends zero start total block len done s h k = absurd (omega arith)
  erase_loop-ends (suc n) start total block len done s h k =
      let l = min len (total - done) in
      let a = (start + done) % 2 ^ 32 in
      let m = call d (d.erase a l (div_ceil l block)) in
      let more : (ltb done total ≡ true
          → ((m >> erase_loop d n start total block len (done + l)) s).0 ≢ fault) =
        λ early.
          bind-ends m (λ _. erase_loop d n start total block len (done + l)) s
            (map_err-ne-fault client_error (d.erase a l (div_ceil l block) s).0
              (erase-ends a l (div_ceil l block) s))
            (λ u e. erase_loop-ends n start total block len (done + l) (m s).1 h (ground arith)) in
      grind (arith, more)

  write_loop-ends :
      (n base chunk off : ℕ) (rest : Bytes) (s : d.State)
      → 0 < chunk
      → chunk ≤ max_write_data
      → length rest < n
      → (write_loop d n base chunk off rest s).0 ≢ fault
  unfolding write_loop
  write_loop-ends zero base chunk off rest s h k room = absurd (omega arith)
  write_loop-ends (suc n) base chunk off [] s h k room = λ e. cc
  write_loop-ends (suc n) base chunk off (b ∷ rest) s h k room =
      let a = (base + off % 2 ^ 32) % 2 ^ 32 in
      let piece = take chunk (b ∷ rest) in
      bind-ends (call d (d.write a piece)) _ s
        (map_err-ne-fault client_error (d.write a piece s).0
          (write-ends a piece s (omega (arith, length-take chunk (b ∷ rest)))))
        (λ u e.
          write_loop-ends n base chunk (off + min chunk (length (b ∷ rest))) (drop chunk (b ∷ rest))
            (d.write a piece s).1 h k (omega (arith, length-drop chunk (b ∷ rest))))

  check_written-ends :
      (v : VerifyPlan) (base len crc : ℕ) (s : d.State)
      → (check_written d v base len crc s).0 ≢ fault
  unfolding check_written compare_crc
  check_written-ends VerifyPlan.commit_plus_live_crc base len crc s =
      bind-ends (call d (d.crc base (len % 2 ^ 32))) _ s
        (map_err-ne-fault client_error (d.crc base (len % 2 ^ 32) s).0
          (crc-ends base (len % 2 ^ 32) s))
        (λ c e x. ground arith)
  check_written-ends VerifyPlan.commit_only base len crc s = λ e. cc
  check_written-ends VerifyPlan.skipped base len crc s = λ e. cc

  leave-ends : (boot : Bool) (s : d.State) → (leave d boot s).0 ≢ fault
  unfolding leave
  leave-ends true s =
      map_err-ne-fault client_error (d.boot BootMode.app s).0 (boot-ends BootMode.app s)
  leave-ends false s =
      let one =
        map_err-ne-fault client_error (d.boot BootMode.stay s).0 (boot-ends BootMode.stay s) in
      λ e. ground (arith, one)

  execute_flash-ends :
      (image : Image) (p : FlashPlan) (s : d.State)
      → 0 < p.chunk
      → p.chunk ≤ max_write_data
      → 0 < p.block
      → p.len ≡ length image.bytes
      → (execute_flash d image p s).0 ≢ fault
  unfolding execute_flash commit_image erase_region
  execute_flash-ends image p s some_chunk few some_block size =
      let blocks = max (erase_chunk / p.block) 1 in
      let step : 0 < blocks * p.block = mul-pos blocks p.block (omega arith) some_block in
      bind-ends (erase_region d image.base p.erase_len p.block) _ s
        (erase_loop-ends (suc p.erase_len) image.base p.erase_len p.block (blocks * p.block) 0 s
          step (omega arith))
        λ u1 q1.
          let s1 = (erase_region d image.base p.erase_len p.block s).1 in
          bind-ends (write_loop d (suc p.len) image.base p.chunk 0 image.bytes) _ s1
            (write_loop-ends (suc p.len) image.base p.chunk 0 image.bytes s1 some_chunk few
              (omega arith))
            λ u2 q2.
              let s2 = (write_loop d (suc p.len) image.base p.chunk 0 image.bytes s1).1 in
              bind-ends (commit_image d (p.len % 2 ^ 32) p.crc) _ s2
                (map_err-ne-fault (λ e. map_commit_mismatch e p.crc)
                  (d.commit (p.len % 2 ^ 32) p.crc s2).0 (commit-ends (p.len % 2 ^ 32) p.crc s2))
                λ u3 q3.
                  let s3 = (commit_image d (p.len % 2 ^ 32) p.crc s2).1 in
                  bind-ends (check_written d p.verify image.base p.len p.crc) _ s3
                    (check_written-ends p.verify image.base p.len p.crc s3)
                    λ u4 q4.
                      leave-ends p.boot (check_written d p.verify image.base p.len p.crc s3).1

  pub flash-ends :
      (crc : Crc32) (source : Source) (opts : FlashOpts) (s : d.State)
      → (flash d crc source opts s).0 ≢ fault
  unfolding flash
  flash-ends crc source opts s =
      let s1 = (d.hello s).1 in
      bind-ends (call d d.hello) _ s (map_err-ne-fault client_error (d.hello s).0 (hello-ends s))
        λ info e.
          let u = d.hello-IsUsable s info (call-ok client_error (d.hello s).0 info e) in
          bind-ends (lift (choose source info)) _ s1 (choose-ne-fault source info) λ image e1.
            bind-ends (lift (plan_flash crc info image opts)) _ s1
              (plan_flash-ne-fault crc info image opts u)
              λ p e2.
                let sizes = plan_flash-sizes crc info image opts p e2 in
                let run =
                  execute_flash-ends image p s1 (omega (arith, sizes.0, u.chunk))
                    (omega (arith, sizes.0, u.chunk_limit)) (omega (arith, sizes.1, u.block))
                    (plan_flash-len crc info image opts p e2) in
                λ x. ground (arith, run)
