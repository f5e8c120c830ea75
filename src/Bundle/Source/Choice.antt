-- ===== src/Bundle/Source/Choice.antt =====
-- The image that is chosen for a slot, and the one that is compared with what is running.
use open_boot.Base.{
  ℕ, ◌<◌, ◌≡◌, ◌≢◌, refl, List, [], ◌∷◌, some, ok, All, arith, subst, sym, ap, inl, inr, ◌↔◌, Among,
}
use open_boot.Image.{Image}
use open_boot.Bundle.{Bundle}
use open_boot.Bundle.IsValid.{IsValid, IsWritable, Ordered}
use open_boot.Bundle.Source.{bundle, others, for_base, only, image_for_base, for_running_image}

All-below :
    (a b : Image) (l : List Image)
    → a.base < b.base
    → All (λ i. b.base < i.base) l
    → All (λ i. a.base < i.base) l
All-below a b [] h k = tt
All-below a b (c ∷ l) h (k, ks) = (omega arith, All-below a b l h ks)

-- Every image of a list in order that stands behind another begins above it.
Ordered-lt :
    (a : Image) (rest : List Image)
    → All IsWritable (a ∷ rest)
    → Ordered (a ∷ rest)
    → All (λ i. a.base < i.base) rest
Ordered-lt a [] w o = tt
Ordered-lt a (b ∷ rest) (wa, (wb, w)) (step, o) =
    let first = wa.some_bytes in
    let below = Ordered-lt b rest (wb, w) o in (omega arith, All-below a b rest (omega arith) below)

All-Among : (P : Image → Type 0) (l : List Image) (j : Image) → All P l → Among j l → P j
All-Among P [] j h m = absurd m
All-Among P (i ∷ l) j (p, h) (inl e) = subst P (sym e) p
All-Among P (i ∷ l) j (p, h) (inr m) = All-Among P l j h m

for_base-Among :
    (l : List Image) (base : ℕ) (i : Image) → for_base l base ≡ some i → Among i l × (i.base ≡ base)
unfolding for_base
for_base-Among [] base i e = cc
for_base-Among (x ∷ l) base i e = ground (arith, for_base-Among l base i)

Ordered-rest : (a : Image) (l : List Image) → Ordered (a ∷ l) → Ordered l
Ordered-rest a [] o = tt
Ordered-rest a (b ∷ l) (step, o) = o

for_base-hit :
    (l : List Image) (i : Image)
    → All IsWritable l
    → Ordered l
    → Among i l
    → for_base l i.base ≡ some i
unfolding for_base
for_base-hit [] i w o m = absurd m
for_base-hit (x ∷ l) i w o (inl e) = ground arith
for_base-hit (x ∷ l) i w o (inr m) =
    let above = All-Among (λ j. x.base < j.base) l i (Ordered-lt x l w o) m in
    ground (arith, above, for_base-hit l i w.1 (Ordered-rest x l o) m)

-- For a valid bundle, `image_for_base` gives an image exactly when that image is in the bundle and
-- is based at the slot.
pub image_for_base-ok :
    (b : Bundle) (base : ℕ) (i : Image)
    → IsValid b
    → (image_for_base (bundle b) base ≡ ok i) ↔ (Among i b.images × (i.base ≡ base))
unfolding image_for_base
image_for_base-ok b base i v = (
  λ e.
      let hit : for_base b.images base ≡ some i = ground arith in
      for_base-Among b.images base i hit,
  λ h. let hit = for_base-hit b.images i v.writable v.ordered h.0 in rw (sym h.1, hit) refl,
)

others-Among :
    (write_base : ℕ) (l : List Image) (i : Image)
    → (Among i (others write_base l)) ↔ (Among i l × (i.base ≢ write_base))
unfolding others
others-Among write_base [] i = ((λ m. absurd m), λ m. absurd m.0)
others-Among write_base (x ∷ l) i =
    let same : i ≡ x → i.base ≡ x.base = λ e. ap (λ j. j.base) e in
    let rest = others-Among write_base l i in ground (arith, same, rest.0, rest.1)

only-Among : (i j : Image) → Among j (i ∷ []) → j ≡ i
only-Among i j (inl e) = e
only-Among i j (inr m) = absurd m

only-ok : (write_base : ℕ) (l : List Image) (i : Image) → only write_base l ≡ ok i → l ≡ i ∷ []
only-ok write_base [] i e = cc
only-ok write_base (j ∷ []) i e = cc
only-ok write_base (j ∷ k ∷ l) i e = cc

-- When `for_running_image` gives an image of a bundle, the image is in the bundle, is not based at
-- the write slot, and is the only one that is not.
pub for_running_image-ok :
    (b : Bundle) (write_base : ℕ) (i : Image)
    → for_running_image (bundle b) write_base ≡ ok i
    → Among i b.images
      × (i.base ≢ write_base)
      × ((j : Image) → Among j b.images → j.base ≢ write_base → j ≡ i)
unfolding for_running_image
for_running_image-ok b write_base i e =
    let all = others-Among write_base b.images in
    let one = only-ok write_base (others write_base b.images) i e in
    let here = (all i).0 (rw one (inl refl)) in
    (here.0, here.1, λ j m ne. only-Among i j (rw one at (all j).1 (m, ne)))
