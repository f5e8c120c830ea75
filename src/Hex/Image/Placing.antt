-- ===== src/Hex/Image/Placing.antt =====
-- tools/src/hex.rs: what `place` and `place_all` do to every cell of the image.
use open_boot.Base.{
  ℕ, suc, ◌+◌, ◌-◌, ◌≤◌, ◌≡◌, ◌≢◌, refl, ap, ◌>>=◌, >>=-eq-ok, Option-cases, inl, inr, Bool, true,
  false, ◌&&◌, List, [], ◌∷◌, Option, none, some, Result, ok, err, fault, Bytes, length, get_elem?,
  set, length-set, get_elem?-set, get_elem?-ge, get_elem?-lt, ltb, leb, if◌then◌else◌, arith,
}
use open_boot.Hex.Errors.{HexError}
use open_boot.Hex.Assemble.Bounds.{InSpan}
use open_boot.Hex.Assemble.{Canvas, place, place_all}

-- The offset i lies in the d bytes from off on.
abbrev pub within : ℕ → ℕ → ℕ → Bool
within off d i = leb off i && ltb i (off + d)

pub record Placed (off : ℕ) (bytes : Bytes) (cv cv' : Canvas) (i : ℕ) : Type 0 where
  pub same_img : length cv'.img ≡ length cv.img
  pub same_used : length cv'.used ≡ length cv.used
  pub now_used :
      get_elem? cv'.used i
      ≡ (if within off (length bytes) i then some true else get_elem? cv.used i)
  pub now_img :
      get_elem? cv'.img i
      ≡ (if within off (length bytes) i then get_elem? bytes (i - off) else get_elem? cv.img i)
  pub was_free : within off (length bytes) i ≡ true → get_elem? cv.used i ≡ some false

pub place-Placed :
    (addr off : ℕ) (bytes : Bytes) (cv cv' : Canvas) (i : ℕ)
    → length cv.img ≡ length cv.used
    → off + length bytes ≤ length cv.used
    → place addr off bytes cv ≡ ok cv'
    → Placed off bytes cv cv' i
unfolding place
place-Placed addr off [] cv cv' i same room e = ground arith
place-Placed addr off (b ∷ bs) cv cv' i same room e =
    let cv1 = record cv { img = set cv.img off b; used = set cv.used off true } in
    ground (
      arith,
      length-set cv.img off b,
      length-set cv.used off true,
      get_elem?-set cv.img off i b,
      get_elem?-set cv.used off i true,
      place-Placed (suc addr) (suc off) bs cv1 cv' i,
    )

-- With room for every byte no index is out of range.
place-ne-fault :
    (addr off : ℕ) (bytes : Bytes) (cv : Canvas)
    → off + length bytes ≤ length cv.used
    → place addr off bytes cv ≢ fault
unfolding place
place-ne-fault addr off [] cv room e = cc
place-ne-fault addr off (b ∷ bs) cv room e =
    let cv1 : Canvas = record { img = set cv.img off b; used = set cv.used off true } in
    ground (
      arith,
      length-set cv.used off true,
      get_elem?-lt cv.used off,
      place-ne-fault (suc addr) (suc off) bs cv1,
    )

-- The byte that a record puts at the address x, and the first of several that does.
abbrev pub byte_in : ℕ → Bytes → ℕ → Option ℕ
byte_in a bytes x = if ltb x a then none else get_elem? bytes (x - a)

abbrev pub or_else : Option ℕ → Option ℕ → Option ℕ
or_else none o = o
or_else (some b) o = some b

unfoldable pub cover : List (ℕ × Bytes) → ℕ → Option ℕ
cover [] x = none
cover ((a, bytes) ∷ rest) x = or_else (byte_in a bytes x) (cover rest x)

-- No address is filled by two records.
unfoldable pub Disjoint : List (ℕ × Bytes) → Type 0
unfolding cover
Disjoint [] = Unit
Disjoint ((a, bytes) ∷ rest) =
    ((x b : ℕ) → byte_in a bytes x ≡ some b → cover rest x ≡ none) × Disjoint rest

abbrev pub mark : Option ℕ → Option Bool → Option Bool
mark none o = o
mark (some b) o = some true

pub record Painted (m : ℕ) (rs : List (ℕ × Bytes)) (cv cv' : Canvas) (i : ℕ) : Type 0 where
  pub same_img : length cv'.img ≡ length cv.img
  pub same_used : length cv'.used ≡ length cv.used
  pub now_used : get_elem? cv'.used i ≡ mark (cover rs (m + i)) (get_elem? cv.used i)
  pub now_img : get_elem? cv'.img i ≡ or_else (cover rs (m + i)) (get_elem? cv.img i)
  pub was_free : cover rs (m + i) ≢ none → get_elem? cv.used i ≡ some false

-- One record, read at the address m + i.
byte_in-within :
    (m a i : ℕ) (bytes : Bytes)
    → m ≤ a
    → byte_in a bytes (m + i)
      ≡ (if within (a - m) (length bytes) i then get_elem? bytes (i - (a - m)) else none)
byte_in-within m a i bytes h =
    let same : m + i - a ≡ i - (a - m) = omega arith in
    ground (arith, get_elem?-ge bytes (i - (a - m)), ap (get_elem? bytes) same)

place_all_step :
    (m a : ℕ) (bytes : Bytes) (rs : List (ℕ × Bytes)) (cv cv1 cv' : Canvas) (i : ℕ)
    → m ≤ a
    → Placed (a - m) bytes cv cv1 i
    → Painted m rs cv1 cv' i
    → Painted m ((a, bytes) ∷ rs) cv cv' i
unfolding cover
place_all_step m a bytes rs cv cv1 cv' i h one more =
    ground (arith, byte_in-within m a i bytes, get_elem?-lt bytes (i - (a - m)))

pub place_all-Painted :
    (m : ℕ) (rs : List (ℕ × Bytes)) (cv cv' : Canvas) (i : ℕ)
    → length cv.img ≡ length cv.used
    → InSpan m (m + length cv.used) rs
    → place_all m rs cv ≡ ok cv'
    → Painted m rs cv cv' i
unfolding place_all InSpan cover
place_all-Painted m [] cv cv' i same room e = ground arith
place_all-Painted m ((a, bytes) ∷ rs) cv cv' i same (low, high, room) e =
    let (cv1, first, rest) = >>=-eq-ok (place a (a - m) bytes cv) (λ c. place_all m rs c) e in
    let one = place-Placed a (a - m) bytes cv cv1 i same (omega arith) first in
    place_all_step m a bytes rs cv cv1 cv' i low one
      (place_all-Painted m rs cv1 cv' i (omega arith) (rw one.same_used room) rest)

-- A record that is placed on a cell keeps the later ones off it.
place_once :
    (m a x : ℕ) (bytes : Bytes) (rs : List (ℕ × Bytes)) (cv cv1 cv' : Canvas) {b : ℕ}
    → m ≤ a
    → Placed (a - m) bytes cv cv1 (x - m)
    → Painted m rs cv1 cv' (x - m)
    → byte_in a bytes x ≡ some b
    → cover rs x ≡ none
place_once m a x bytes rs cv cv1 cv' {b} h one more at =
    let low : a ≤ x = ground arith in
    let i = x - m in
    let place_of : m + i ≡ x = omega arith in
    let at' : byte_in a bytes (m + i) ≡ some b = rw place_of at in
    let free : cover rs (m + i) ≢ none → get_elem? cv1.used i ≡ some false = more.was_free in
    let taken : get_elem? cv1.used i ≡ some true = ground (arith, byte_in-within m a i bytes) in
    rw (← place_of) (elim (Option-cases (cover rs (m + i))) [
      | inl nothing ↦ nothing
      | inr (c, e) ↦ absurd (ground arith)
    ])

pub place_all-Disjoint :
    (m : ℕ) (rs : List (ℕ × Bytes)) (cv cv' : Canvas)
    → length cv.img ≡ length cv.used
    → InSpan m (m + length cv.used) rs
    → place_all m rs cv ≡ ok cv'
    → Disjoint rs
unfolding place_all InSpan Disjoint
place_all-Disjoint m [] cv cv' same room e = tt
place_all-Disjoint m ((a, bytes) ∷ rs) cv cv' same (low, high, room) e =
    let (cv1, first, rest) = >>=-eq-ok (place a (a - m) bytes cv) (λ c. place_all m rs c) e in
    let one = λ (i : ℕ). place-Placed a (a - m) bytes cv cv1 i same (omega arith) first in
    let same1 : length cv1.img ≡ length cv1.used = omega (arith, one 0) in
    let room1 : InSpan m (m + length cv1.used) rs = rw (one 0).same_used room in
    (
      λ x b at.
          place_once m a x bytes rs cv cv1 cv' low (one (x - m))
            (place_all-Painted m rs cv1 cv' (x - m) same1 room1 rest) at,
      place_all-Disjoint m rs cv1 cv' same1 room1 rest,
    )

pub place_all-ne-fault :
    (m : ℕ) (rs : List (ℕ × Bytes)) (cv : Canvas)
    → length cv.img ≡ length cv.used
    → InSpan m (m + length cv.used) rs
    → place_all m rs cv ≢ fault
unfolding place_all InSpan
place_all-ne-fault m [] cv same room e = cc
place_all-ne-fault m ((a, bytes) ∷ rs) cv same (low, high, room) e =
    after (place_all-ne-fault m rs) (place a (a - m) bytes cv) refl e
  where
    after :
        ((c : Canvas)
          → length c.img ≡ length c.used
          → InSpan m (m + length c.used) rs
          → place_all m rs c ≢ fault)
        → (r : Result HexError Canvas) → place a (a - m) bytes cv ≡ r
        → (r >>= λ c. place_all m rs c) ≢ fault
    after later (ok cv1) p =
        let one = place-Placed a (a - m) bytes cv cv1 0 same (omega arith) p in
        later cv1 (omega arith) (rw one.same_used room)
    after later (err x) p = λ e. cc
    after later fault p = absurd (place-ne-fault a (a - m) bytes cv (omega arith) p)
