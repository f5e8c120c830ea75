-- ===== src/Flows/Window.antt =====
-- What the flows erase and write stays in the window that the device offers for writing.
use open_boot.Base.{
  ℕ, suc, ◌+◌, ◌*◌, ◌-◌, ◌/◌, ◌%◌, ◌^◌, ◌≤◌, ◌<◌, ◌≡◌, sym, ap, ◌∙◌, inl, inr, Bool, true, false,
  not, List, [], ◌∷◌, ◌++◌, append-nil, append_assoc, length-append, some, ◌==◌, Result, ok, err,
  Bytes, All, All-append, length, div_ceil, IsU32, if◌then◌else◌, arith, max,
}
use open_boot.Base.Actions.{Action, ◌>>=◌, >>=-cases}
use native.Mathlib.Nat.{div-mul-le_self, lt-div-mul-add}
use open_boot.Proto.Crc32.{Crc32}
use open_boot.Proto.DeviceInfo.{DeviceInfo, IsUsable}
use open_boot.Image.{Image}
use open_boot.Client.Errors.{BootMode}
use open_boot.Flows.Commands.{Device, Call}
use open_boot.Flows.{
  FlowError, verify_mismatch, FlashOpts, FlashPlan, VerifyPlan, plan_flash, call, execute_flash,
  erase_region, write_loop, commit_image, compare_crc, check_written, leave, erase_chunk,
}
use open_boot.Flows.Tiling.{EraseTiles, WriteTiles, Makes, erase_region-tiles, write_loop-tiles}

-- The call leaves everything below `lo` and from `hi` on as it is.
abbrev pub InWindow : ℕ → ℕ → Call → Type 0
InWindow lo hi Call.hello = Unit
InWindow lo hi (Call.erase addr len blocks) = (lo ≤ addr) × (addr + len ≤ hi)
InWindow lo hi (Call.write addr bytes) = (lo ≤ addr) × (addr + length bytes ≤ hi)
InWindow lo hi (Call.commit len crc) = Unit
InWindow lo hi (Call.crc addr len) = Unit
InWindow lo hi (Call.boot mode) = Unit

-- The end of a front of the tiles is the start of the rest.
EraseTiles-le :
    (block max_len a b : ℕ) (calls : List Call) → EraseTiles block max_len a calls b → a ≤ b
EraseTiles-le block max_len a b [] t = omega arith
EraseTiles-le block max_len a b (Call.erase addr len blocks ∷ calls) (_, _, _, _, t) =
    omega (arith, EraseTiles-le block max_len (a + len) b calls t)
EraseTiles-le block max_len a b (Call.hello ∷ calls) t = absurd t
EraseTiles-le block max_len a b (Call.write addr bytes ∷ calls) t = absurd t
EraseTiles-le block max_len a b (Call.commit len crc ∷ calls) t = absurd t
EraseTiles-le block max_len a b (Call.crc addr len ∷ calls) t = absurd t
EraseTiles-le block max_len a b (Call.boot mode ∷ calls) t = absurd t

EraseTiles-InWindow :
    (lo hi block max_len a b : ℕ) (calls : List Call)
    → lo ≤ a
    → b ≤ hi
    → EraseTiles block max_len a calls b
    → All (InWindow lo hi) calls
EraseTiles-InWindow lo hi block max_len a b [] h k t = tt
EraseTiles-InWindow lo hi block max_len a b (Call.erase addr len blocks ∷ calls) h k
      (here, _, _, _, t) =
    let below = EraseTiles-le block max_len (a + len) b calls t in
    (omega arith, EraseTiles-InWindow lo hi block max_len (a + len) b calls (omega arith) k t)
EraseTiles-InWindow lo hi block max_len a b (Call.hello ∷ calls) h k t = absurd t
EraseTiles-InWindow lo hi block max_len a b (Call.write addr bytes ∷ calls) h k t = absurd t
EraseTiles-InWindow lo hi block max_len a b (Call.commit len crc ∷ calls) h k t = absurd t
EraseTiles-InWindow lo hi block max_len a b (Call.crc addr len ∷ calls) h k t = absurd t
EraseTiles-InWindow lo hi block max_len a b (Call.boot mode ∷ calls) h k t = absurd t

WriteTiles-InWindow :
    (lo hi chunk a : ℕ) (bytes rest : Bytes) (calls : List Call)
    → lo ≤ a
    → a + length bytes ≤ hi
    → WriteTiles chunk a bytes calls rest
    → All (InWindow lo hi) calls
WriteTiles-InWindow lo hi chunk a bytes rest [] h k t = tt
WriteTiles-InWindow lo hi chunk a bytes rest (Call.write addr piece ∷ calls) h k
      (here, _, _, tail, cut, t) =
    let len : length bytes ≡ length piece + length tail =
      ap length cut ∙ length-append piece tail in
    (
      omega arith,
      WriteTiles-InWindow lo hi chunk (a + length piece) tail rest calls (omega arith) (omega arith)
          t,
    )
WriteTiles-InWindow lo hi chunk a bytes rest (Call.hello ∷ calls) h k t = absurd t
WriteTiles-InWindow lo hi chunk a bytes rest (Call.erase addr len blocks ∷ calls) h k t = absurd t
WriteTiles-InWindow lo hi chunk a bytes rest (Call.commit len crc ∷ calls) h k t = absurd t
WriteTiles-InWindow lo hi chunk a bytes rest (Call.crc addr len ∷ calls) h k t = absurd t
WriteTiles-InWindow lo hi chunk a bytes rest (Call.boot mode ∷ calls) h k t = absurd t

-- For a usable device description whose region ends at a u32, and an image that one more erase block
-- does not carry past 4 GiB: when `plan_flash` accepts, the image is based at the write slot, its
-- length is the plan's, the blocks to erase cover it and exceed it by less than one block, and they
-- end within the write window.
pub plan_flash-fits :
    (crc : Crc32) (info : DeviceInfo) (image : Image) (opts : FlashOpts) (p : FlashPlan)
    → IsUsable info
    → IsU32 info.app_end
    → length image.bytes + info.erase_block ≤ 2 ^ 32
    → plan_flash crc info image opts ≡ ok p
    → (image.base ≡ info.write_base)
      × (p.len ≡ length image.bytes)
      × (length image.bytes ≤ p.erase_len)
      × (p.erase_len < length image.bytes + info.erase_block)
      × (info.write_base + p.erase_len ≤ info.write_base + info.write_capacity)
unfolding plan_flash
plan_flash-fits crc info image opts p u word small e =
    let q = div_ceil (length image.bytes % 2 ^ 32) info.erase_block in
    let parts : (image.base ≡ info.write_base)
        × (p.len ≡ length image.bytes)
        × (p.erase_len ≡ q * info.erase_block % 2 ^ 32)
        × (image.base + p.erase_len ≤ info.write_base + info.write_capacity) =
      ground arith in
    let least =
      div-mul-le_self (length image.bytes % 2 ^ 32 + (info.erase_block - 1)) info.erase_block in
    let most = lt-div-mul-add {a = length image.bytes % 2 ^ 32 + (info.erase_block - 1)} u.block in
    let words : length image.bytes ≤ info.write_capacity = ground arith in
    (
      parts.0,
      parts.1,
      omega (arith, u.block, u.window_end),
      omega (arith, u.block, u.window_end),
      omega arith,
    )

module _ (d : Device) (lo hi : ℕ) where
  -- Every call that the action makes from s leaves alone what is outside.
  abbrev pub Keeps : {B : Type 0} → Action d.State FlowError B → d.State → Type 0
  Keeps m s = Makes d m (λ calls _. All (InWindow lo hi) calls) s

  pub Keeps-none : {B : Type 0} (r : Result FlowError B) (s : d.State) → Keeps (λ t. (r, t)) s
  Keeps-none r s = ([], sym (append-nil (d.issued s)), tt)

  pub Keeps-bind :
      {A B : Type 0} (m : Action d.State FlowError A) (f : A → Action d.State FlowError B)
      (s : d.State)
      → Keeps m s
      → ((a : A) → (m s).0 ≡ ok a → Keeps (f a) (m s).1)
      → Keeps (m >>= f) s
  Keeps-bind m f s (calls, log, inside) k = elim (>>=-cases m f s) [
    | inl (a, gives_a, eq) ↦
        let (more, log', inside') = k a gives_a in
        rw eq (
          calls ++ more,
          log' ∙ rw (log, append_assoc),
          All-append (InWindow lo hi) calls more inside inside',
        )
    | inr (state, failed) ↦ (calls, ap d.issued state ∙ log, inside)
  ]

  pub Keeps-if :
      {B : Type 0} (b : Bool) (m k : Action d.State FlowError B) (s : d.State)
      → Keeps m s
      → Keeps k s
      → Keeps (if b then m else k) s
  Keeps-if true m k s h h' = h
  Keeps-if false m k s h h' = h'

  pub Keeps-tiles :
      (start total block : ℕ) (s : d.State)
      → start + total ≤ 2 ^ 32
      → 0 < block
      → lo ≤ start
      → start + total ≤ hi
      → Keeps (erase_region d start total block) s
  Keeps-tiles start total block s word some_block low high =
      let (calls, log, body) = erase_region-tiles d start total block s word some_block in
      let (x, tiles, limit, end) = body in
      (
        calls,
        log,
        EraseTiles-InWindow lo hi block (max (erase_chunk / block) 1 * block) (start + 0) x calls
            (omega arith) (omega arith) tiles,
      )

  Keeps-write :
      (base chunk : ℕ) (bytes : Bytes) (s : d.State)
      → 0 < chunk
      → base + length bytes ≤ 2 ^ 32
      → lo ≤ base
      → base + length bytes ≤ hi
      → Keeps (write_loop d (suc (length bytes)) base chunk 0 bytes) s
  Keeps-write base chunk bytes s some_chunk word low high =
      let (calls, log, body) =
        write_loop-tiles d base chunk some_chunk (suc (length bytes)) 0 bytes s (omega arith)
          (omega arith) in
      let (rest, tiles, end) = body in
      (
        calls,
        log,
        WriteTiles-InWindow lo hi chunk (base + 0) bytes rest calls (omega arith) (omega arith)
            tiles,
      )

  pub Keeps-commit : (len crc : ℕ) (s : d.State) → Keeps (commit_image d len crc) s
  unfolding commit_image
  Keeps-commit len crc s = (Call.commit len crc ∷ [], d.issued-commit len crc s, (tt, tt))

  pub Keeps-compare : (base len local : ℕ) (s : d.State) → Keeps (compare_crc d base len local) s
  unfolding compare_crc
  Keeps-compare base len local s =
      Keeps-bind (call d (d.crc base len)) _ s
        (Call.crc base len ∷ [], d.issued-crc base len s, (tt, tt))
        (λ c e.
          Keeps-if (not (c == local)) _ _ (d.crc base len s).1
            (Keeps-none {B = Unit {0}} (err (verify_mismatch local (some c))) _)
            (Keeps-none {B = Unit {0}} (ok tt) _))

  Keeps-check :
      (v : VerifyPlan) (base len local : ℕ) (s : d.State)
      → Keeps (check_written d v base len local) s
  unfolding check_written
  Keeps-check VerifyPlan.commit_plus_live_crc base len local s =
      Keeps-compare base (len % 2 ^ 32) local s
  Keeps-check VerifyPlan.commit_only base len local s = Keeps-none (ok tt) s
  Keeps-check VerifyPlan.skipped base len local s = Keeps-none (ok tt) s

  Keeps-boot : (mode : BootMode) (s : d.State) → Keeps (call d (d.boot mode)) s
  Keeps-boot mode s = (Call.boot mode ∷ [], d.issued-boot mode s, (tt, tt))

  Keeps-leave : (boot : Bool) (s : d.State) → Keeps (leave d boot) s
  unfolding leave
  Keeps-leave true s = Keeps-boot BootMode.app s
  Keeps-leave false s = leave_cases (d.holds_in_bootloader s)
    where
      leave_cases :
          (b : Bool) → Keeps (λ t. if b then (ok tt, t) else call d (d.boot BootMode.stay) t) s
      leave_cases true = Keeps-none (ok tt) s
      leave_cases false = Keeps-boot BootMode.stay s

  pub Keeps-execute :
      (image : Image) (p : FlashPlan) (s : d.State)
      → p.len ≡ length image.bytes
      → 0 < p.chunk
      → 0 < p.block
      → lo ≤ image.base
      → image.base + p.erase_len ≤ hi
      → length image.bytes ≤ p.erase_len
      → hi ≤ 2 ^ 32
      → Keeps (execute_flash d image p) s
  unfolding execute_flash
  Keeps-execute image p s whole some_chunk some_block low high cover word =
      Keeps-bind (erase_region d image.base p.erase_len p.block) _ s
        (Keeps-tiles image.base p.erase_len p.block s (omega arith) some_block low high)
        λ u e1.
          Keeps-bind (write_loop d (suc p.len) image.base p.chunk 0 image.bytes) _ _
            (rw whole (
              Keeps-write image.base p.chunk image.bytes _ some_chunk (omega arith) low
                (omega arith)))
            λ v e2.
              Keeps-bind (commit_image d (p.len % 2 ^ 32) p.crc) _ _
                (Keeps-commit (p.len % 2 ^ 32) p.crc _)
                λ w e3.
                  Keeps-bind (check_written d p.verify image.base p.len p.crc) _ _
                    (Keeps-check p.verify image.base p.len p.crc _) λ x e4. Keeps-leave p.boot _
