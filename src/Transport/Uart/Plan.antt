-- ===== src/Transport/Uart/Plan.antt =====
-- The plan of the writes covers the buffer, and pauses between two writes and not behind the last.
use open_boot.Base.{
  ℕ, zero, suc, ◌+◌, ◌-◌, ◌*◌, ◌≤◌, ◌<◌, ◌≡◌, ◌≢◌, refl, subst, Bool, true, false, List, [], ◌∷◌,
  Option, none, some, div_ceil, if◌then◌else◌, arith,
}
use native.Mathlib.Nat.{suc-mul, div-mul-le_self, lt-div-mul-add}
use open_boot.Text.{Text}
use open_boot.Transport.Uart.{parse_chunk, plan_rows, write_plan}

abbrev is_empty : List (ℕ × Bool) → Bool
is_empty [] = true
is_empty (row ∷ rows) = false

-- The rows cut so many bytes: each has a byte at least, and a pause follows it unless it is the last.
abbrev pub IsPlan : ℕ → List (ℕ × Bool) → Type 0
IsPlan total [] = total ≡ 0
IsPlan total ((len, pause) ∷ rows) =
    (0 < len)
    × (len ≤ total)
    × (pause ≡ (if is_empty rows then false else true))
    × IsPlan (total - len) rows

rows-IsPlan :
    (k i n total c done : ℕ)
    → 0 < c
    → i + suc k ≡ n
    → done ≡ i * c
    → done + k * c < total
    → total ≤ done + k * c + c
    → IsPlan (total - done) (plan_rows (suc k) i n total c)
unfolding plan_rows
rows-IsPlan zero i n total c done h e s low high =
    let last : i + 1 ≡ n = omega arith in ground arith
rows-IsPlan (suc k) i n total c done h e s low high =
    let step : (i + 1) * c ≡ i * c + c = omega (arith, suc-mul i c) in
    let more : suc k * c ≡ k * c + c = suc-mul k c in
    let next : done + c ≡ (i + 1) * c = omega arith in
    let rest =
      rows-IsPlan k (i + 1) n total c (done + c) h (omega arith) next (omega arith) (omega arith) in
    let left : total - (done + c) ≡ total - done - c = omega arith in
    ground (arith, rw left at rest)

all_rows-IsPlan :
    (q total c : ℕ)
    → 0 < total
    → 0 < c
    → q * c ≤ total + (c - 1)
    → total + (c - 1) < q * c + c
    → IsPlan total (plan_rows q 0 q total c)
all_rows-IsPlan zero total c h k least most = absurd (omega arith)
all_rows-IsPlan (suc m) total c h k least most =
    let step = suc-mul m c in
    let whole : total - 0 ≡ total = omega arith in
    subst (λ t. IsPlan t (plan_rows (suc m) 0 (suc m) total c)) whole
      (rows-IsPlan m 0 (suc m) total c 0 k (omega arith) (omega arith) (omega arith) (omega arith))

-- For a buffer that is not empty and a chunk of at least one byte, the plan of the writes has at least
-- one byte in each write, covers the buffer exactly, and has a pause behind every write but the last.
pub write_plan-IsPlan :
    (total : ℕ) (chunk : Option ℕ)
    → 0 < total
    → chunk ≢ some 0
    → IsPlan total (write_plan total chunk)
unfolding write_plan
write_plan-IsPlan total none h k = (h, omega arith, refl, omega arith)
write_plan-IsPlan total (some c) h k =
    let some_chunk : 0 < c = ground arith in
    all_rows-IsPlan (div_ceil total c) total c h some_chunk (div-mul-le_self (total + (c - 1)) c)
      (lt-div-mul-add {a = total + (c - 1)} some_chunk)

-- The value of the variable never asks for chunks of no bytes.
pub parse_chunk-ne-zero : (v : Option Text) → parse_chunk v ≢ some 0
unfolding parse_chunk
parse_chunk-ne-zero v e = ground arith
