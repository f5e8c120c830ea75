-- ===== src/Bundle/IsValid.antt =====
-- What `new` accepts: aligned images of whole words, sorted by base, none running into the next.
use open_boot.Base.{
  ℕ, suc, ◌+◌, ◌%◌, ◌≤◌, ◌<◌, ◌≡◌, ◌↔◌, refl, false, List, [], ◌∷◌, ok, Bytes, All, length, leb,
  arith, ◌∙◌, ap, Bool-cases, inl, inr,
}
use mathlib.Core.List.{Perm}
use mathlib.Core.List.Perm
use open_boot.Image.{Image, is_empty}
use open_boot.Bundle.{Bundle, max_variants, check_each, insert, sort, check_pairs, new}

-- An image that can be written: on a word boundary, in whole words, and not empty.
pub record IsWritable (img : Image) : Type 0 where
  pub aligned : img.base % 4 ≡ 0
  pub some_bytes : 0 < length img.bytes
  pub words : length img.bytes % 4 ≡ 0

-- Each image ends where the next begins, or before.
abbrev pub Ordered : List Image → Type 0
Ordered [] = Unit
Ordered (a ∷ []) = Unit
Ordered (a ∷ b ∷ rest) = (a.base + length a.bytes ≤ b.base) × Ordered (b ∷ rest)

pub record IsValid (b : Bundle) : Type 0 where
  pub least : 0 < length b.images
  pub most : length b.images ≤ max_variants
  pub writable : All IsWritable b.images
  pub ordered : Ordered b.images

is_empty-lt : (bs : Bytes) → (is_empty bs ≡ false) ↔ (0 < length bs)
is_empty-lt [] = ((λ e. cc), λ h. absurd (omega arith))
is_empty-lt (b ∷ bs) = ((λ e. omega arith), λ h. refl)

check_each-IsWritable :
    (i : ℕ) (images : List Image) → check_each i images ≡ ok tt → All IsWritable images
unfolding check_each
check_each-IsWritable i [] e = tt
check_each-IsWritable i (img ∷ rest) e =
    ground (arith, check_each-IsWritable (suc i) rest, is_empty-lt img.bytes)

IsWritable-check_each :
    (i : ℕ) (images : List Image) → All IsWritable images → check_each i images ≡ ok tt
unfolding check_each
IsWritable-check_each i [] h = refl
IsWritable-check_each i (img ∷ rest) (w, h) =
    ground (arith, w, IsWritable-check_each (suc i) rest h, is_empty-lt img.bytes)

check_pairs-Ordered : (images : List Image) → check_pairs images ≡ ok tt → Ordered images
unfolding check_pairs
check_pairs-Ordered [] e = tt
check_pairs-Ordered (a ∷ []) e = tt
check_pairs-Ordered (a ∷ b ∷ rest) e = ground (arith, check_pairs-Ordered (b ∷ rest))

Ordered-check_pairs :
    (images : List Image) → All IsWritable images → Ordered images → check_pairs images ≡ ok tt
unfolding check_pairs
Ordered-check_pairs [] h o = refl
Ordered-check_pairs (a ∷ []) h o = refl
Ordered-check_pairs (a ∷ b ∷ rest) (w, h) (step, o) =
    ground (arith, w, Ordered-check_pairs (b ∷ rest) h o)

-- The sort only moves images.
insert-perm : (x : Image) (xs : List Image) → Perm (insert x xs) (x ∷ xs)
unfolding insert
insert-perm x [] = Perm.refl (x ∷ [])
insert-perm x (y ∷ ys) = elim (Bool-cases (leb x.base y.base)) [
  | inl e ↦ rw e (Perm.refl (x ∷ y ∷ ys))
  | inr e ↦ rw e (Perm.trans (Perm.cons y (insert-perm x ys)) (Perm.swap x y ys))
]

sort-perm : (xs : List Image) → Perm (sort xs) xs
unfolding sort
sort-perm [] = Perm.refl []
sort-perm (x ∷ xs) = Perm.trans (insert-perm x (sort xs)) (Perm.cons x (sort-perm xs))

length-insert : (x : Image) (xs : List Image) → length (insert x xs) ≡ suc (length xs)
unfolding insert
length-insert x [] = refl
length-insert x (y ∷ ys) = ground (arith, length-insert x ys)

length-sort : (xs : List Image) → length (sort xs) ≡ length xs
unfolding sort
length-sort [] = refl
length-sort (x ∷ xs) = omega (arith, length-insert x (sort xs), length-sort xs)

All-insert :
    (x : Image) (xs : List Image) → IsWritable x → All IsWritable xs → All IsWritable (insert x xs)
unfolding insert
All-insert x [] w h = (w, tt)
All-insert x (y ∷ ys) w (v, h) = elim (Bool-cases (leb x.base y.base)) [
  | inl e ↦ rw e (w, (v, h))
  | inr e ↦ rw e (v, All-insert x ys w h)
]

All-sort : (xs : List Image) → All IsWritable xs → All IsWritable (sort xs)
unfolding sort
All-sort [] h = tt
All-sort (x ∷ xs) (w, h) = All-insert x (sort xs) w (All-sort xs h)

insert_first : (x y : Image) (ys : List Image) → x.base ≤ y.base → insert x (y ∷ ys) ≡ x ∷ y ∷ ys
unfolding insert
insert_first x y ys h = ground arith

-- A list in order is sorted already.
sort-Ordered : (xs : List Image) → Ordered xs → sort xs ≡ xs
unfolding sort insert
sort-Ordered [] o = refl
sort-Ordered (x ∷ []) o = refl
sort-Ordered (x ∷ y ∷ ys) (step, o) =
    ap (insert x) (sort-Ordered (y ∷ ys) o) ∙ insert_first x y ys (omega arith)

-- A bundle that `new` makes is valid, has the family given, and holds the images given, in another
-- order.
pub new-IsValid :
    (chip_family : ℕ) (images : List Image) (b : Bundle)
    → new chip_family images ≡ ok b
    → IsValid b × Perm b.images images × (b.chip_family ≡ chip_family)
unfolding new
new-IsValid chip_family images b e =
    let parts : (b ≡ record { chip_family = chip_family; images = sort images })
        × (0 < length images)
        × (length images ≤ max_variants)
        × (check_each 0 images ≡ ok tt)
        × (check_pairs (sort images) ≡ ok tt) =
      ground arith in
    rw parts.0 (
      record {
        least = omega (arith, length-sort images);
        most = omega (arith, length-sort images);
        writable = All-sort images (check_each-IsWritable 0 images parts.3);
        ordered = check_pairs-Ordered (sort images) parts.4;
      },
      sort-perm images,
      refl,
    )

-- `new` keeps the images of a valid bundle as they are.
pub new_keeps : (b : Bundle) → IsValid b → new b.chip_family b.images ≡ ok b
unfolding new
new_keeps b v =
    let sorted = sort-Ordered b.images v.ordered in
    rw sorted (
      ground (
        arith,
        IsWritable-check_each 0 b.images v.writable,
        Ordered-check_pairs b.images v.writable v.ordered,
      ))
