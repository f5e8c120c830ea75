-- ===== src/Image/Padding.antt =====
-- Padding: whole words, at most three bytes more, and nothing of the image changed.
use open_boot.Base.{
  ℕ, ◌+◌, ◌-◌, ◌%◌, ◌<◌, ◌≡◌, Bytes, length, length-append, length-replicate, replicate, ◌++◌,
  append-nil, arith, refl, Bool-cases, inl, inr, ◌==◌, ==_iff, sym, false,
}
use open_boot.Image.{pad4}

short_pad : (bytes : Bytes) → (length bytes % 4 == 0) ≡ false → 0 < length bytes % 4
short_pad bytes e = ground arith

-- The padded image is a whole number of 4-byte words and less than one word longer, and it is the
-- bytes given with 0xFF behind them.
pub pad4_lem :
    (bytes : Bytes)
    → (length (pad4 bytes) % 4 ≡ 0)
      × (length (pad4 bytes) < length bytes + 4)
      × (pad4 bytes ≡ bytes ++ replicate (length (pad4 bytes) - length bytes) 0xff)
unfolding pad4
pad4_lem bytes = elim (Bool-cases (length bytes % 4 == 0)) [
  | inl e ↦
      let none_added : length bytes - length bytes ≡ 0 = omega arith in
      rw (e, none_added) ((==_iff _ _).0 e, omega arith, sym (append-nil bytes))
  | inr e ↦
      let k = 4 - length bytes % 4 in
      let pad = replicate k 0xff in
      let len : length (bytes ++ pad) ≡ length bytes + k =
        omega (arith, length-append bytes pad, length-replicate {A = ℕ} k 0xff) in
      let added : length (bytes ++ pad) - length bytes ≡ k = omega arith in
      rw (e, added) (omega (arith, short_pad bytes e), omega (arith, short_pad bytes e), refl)
]
