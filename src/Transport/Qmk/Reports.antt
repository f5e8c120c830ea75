-- ===== src/Transport/Qmk/Reports.antt =====
-- Which buffers are reports.
use open_boot.Base.{
  ℕ, ◌≤◌, ◌≡◌, ◌↔◌, refl, sym, ap, subst, ◌∙◌, [], ◌∷◌, ◌++◌, some, Bytes, length, take, drop,
  length-append, length-take, take_front, take-append-drop, arith,
}
use open_boot.Transport.Qmk.{parse_report, stream_max}

cut_report :
    (tag len : ℕ) (rest : Bytes) (tag' : ℕ) (payload : Bytes)
    → parse_report (tag ∷ len ∷ rest) ≡ some (tag', payload)
    → (tag ≡ tag') × (len ≡ length payload) × (payload ≡ take len rest) × (len ≤ stream_max)
unfolding parse_report
cut_report tag len rest tag' payload e = ground (arith, length-take len rest)

read_back :
    (buf : Bytes) (tag : ℕ) (payload : Bytes)
    → parse_report buf ≡ some (tag, payload)
    → (rest : Bytes) × (buf ≡ tag ∷ length payload ∷ (payload ++ rest))
      × (length payload ≤ stream_max)
unfolding parse_report
read_back [] tag payload e = cc
read_back (b ∷ []) tag payload e = cc
read_back (t ∷ len ∷ more) tag payload e =
    let (same_tag, same_len, cut, fits) = cut_report t len more tag payload e in
    let whole : more ≡ payload ++ drop len more =
      sym (take-append-drop len more) ∙ ap (λ p. p ++ drop len more) (sym cut) in
    (drop len more, rw (same_tag, ← same_len, ← whole) refl, rw (← same_len) fits)

framed_back :
    (tag : ℕ) (payload rest : Bytes)
    → length payload ≤ stream_max
    → parse_report (tag ∷ length payload ∷ (payload ++ rest)) ≡ some (tag, payload)
unfolding parse_report
framed_back tag payload rest h =
    ground (arith, length-append payload rest, take_front (length payload) payload rest refl)

-- `pump` reads a tag and a payload out of a buffer exactly where the buffer is the tag, the length of
-- the payload, the payload, and any padding, with a payload of at most 62 bytes. From any other buffer
-- it takes no byte.
pub parse_report_iff :
    (buf : Bytes) (tag : ℕ) (payload : Bytes)
    → (parse_report buf ≡ some (tag, payload)) ↔ (
        (rest : Bytes) × (buf ≡ tag ∷ length payload ∷ (payload ++ rest))
        × (length payload ≤ stream_max))
parse_report_iff buf tag payload = (
  read_back buf tag payload,
  λ (rest, e, h).
      subst (λ b. parse_report b ≡ some (tag, payload)) (sym e) (framed_back tag payload rest h),
)
