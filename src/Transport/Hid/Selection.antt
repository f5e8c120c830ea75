-- ===== src/Transport/Hid/Selection.antt =====
-- Which interface is opened.
use open_boot.Base.{
  ℕ, ◌≤◌, ◌≡◌, ◌⊎◌, ◌↔◌, inl, inr, refl, sym, ap, subst, ◌∙◌, Bool, true, false, ◌&&◌, List, [],
  ◌∷◌, map, filter, Among, filter-Among, Option, ok, bytes_eq, bytes_eq→eq, length, ◌==◌,
  if◌then◌else◌, Bool-cases, arith,
}
use open_boot.Text.{Text}
use open_boot.Transport.Hid.{
  UsageFilter, matches, usage_unknown, Candidate, values, is_exact, is_unknown, or_else, narrow,
  DeviceInfo, has_serial, by_id, keyed, path_set, unambiguous, select,
}

map-Among :
    {A B : Type 0} (f : A → B) (xs : List A) (y : B)
    → (Among y (map f xs)) ↔ ((x : A) × Among x xs × (y ≡ f x))
map-Among f [] y = (λ m. absurd m, λ (x, m, e). absurd m)
map-Among f (x ∷ xs) y =
    let (back, forth) = map-Among f xs y in
    (
      λ m. elim m [ inl e ↦ (x, inl refl, e) | inr r ↦ let (z, zm, e) = back r in (z, inr zm, e) ],
      λ (z, m, e). elim m [ inl h ↦ inl (e ∙ ap f h) | inr r ↦ inr (forth (z, r, e)) ],
    )

-- A candidate of this value with this page and usage.
abbrev pub At : {T : Type 0} → ℕ → ℕ → T → List (Candidate T) → Type 0
At {T} page usage v cs =
    (c : Candidate T) × Among c cs × (v ≡ c.value) × (c.usage_page ≡ page) × (c.usage ≡ usage)

module _ {T : Type 0} (wanted : UsageFilter) where
  is_exact_iff :
      (c : Candidate T)
      → (is_exact wanted c ≡ true) ↔ ((c.usage_page ≡ wanted.page) × (c.usage ≡ wanted.usage))
  unfolding matches
  is_exact_iff c = (λ e. ground arith, λ (e, f). ground arith)

  is_unknown_iff : (c : Candidate T) → (is_unknown c ≡ true) ↔ ((c.usage_page ≡ 0) × (c.usage ≡ 0))
  unfolding usage_unknown
  is_unknown_iff c = (λ e. ground arith, λ (e, f). ground arith)

  exact-Among :
      (cs : List (Candidate T)) (v : T)
      → (Among v (values (filter (is_exact wanted) cs))) ↔ At wanted.page wanted.usage v cs
  exact-Among cs v =
      let (back, forth) = map-Among (λ c. c.value) (filter (is_exact wanted) cs) v in
      (
        λ m.
            let (c, cm, e) = back m in
            let (there, yes_exact) = (filter-Among (is_exact wanted) cs c).0 cm in
            (c, there, e, ((is_exact_iff c).0 yes_exact).0, ((is_exact_iff c).0 yes_exact).1),
        λ (c, there, e, p, u).
            forth
              (c, (filter-Among (is_exact wanted) cs c).1 (there, (is_exact_iff c).1 (p, u)), e),
      )

  unknown-Among :
      (cs : List (Candidate T)) (v : T) → (Among v (values (filter is_unknown cs))) ↔ At 0 0 v cs
  unknown-Among cs v =
      let (back, forth) = map-Among (λ c. c.value) (filter is_unknown cs) v in
      (
        λ m.
            let (c, cm, e) = back m in
            let (there, blank) = (filter-Among is_unknown cs c).0 cm in
            (c, there, e, ((is_unknown_iff c).0 blank).0, ((is_unknown_iff c).0 blank).1),
        λ (c, there, e, p, u).
            forth (c, (filter-Among is_unknown cs c).1 (there, (is_unknown_iff c).1 (p, u)), e),
      )

  -- `narrow` keeps exactly the candidates with the wanted usage where there is one, and where there is
  -- none exactly those whose usage is unknown.
  pub narrow-Among :
      (cs : List (Candidate T))
      → (((w : T) × At wanted.page wanted.usage w cs)
          × ((v : T) → (Among v (narrow wanted cs)) ↔ At wanted.page wanted.usage v cs))
        ⊎ (((w : T) → At wanted.page wanted.usage w cs → ⊥)
            × ((v : T) → (Among v (narrow wanted cs)) ↔ At 0 0 v cs))
  unfolding narrow
  narrow-Among cs = split (values (filter (is_exact wanted) cs)) (exact-Among cs)
    where
      split :
          (xs : List T)
          → ((v : T) → (Among v xs) ↔ At wanted.page wanted.usage v cs)
          → (((w : T) × At wanted.page wanted.usage w cs)
              × ((v : T)
                  → (Among v (or_else xs (values (filter is_unknown cs))))
                    ↔ At wanted.page wanted.usage v cs))
            ⊎ (((w : T) → At wanted.page wanted.usage w cs → ⊥)
                × ((v : T) → (Among v (or_else xs (values (filter is_unknown cs)))) ↔ At 0 0 v cs))
      split [] h = inr (λ w x. (h w).1 x, unknown-Among cs)
      split (x ∷ xs) h = inl ((x, (h x).0 (inl refl)), h)

path_set-Among : (ds : List DeviceInfo) (e : DeviceInfo) → Among e ds → Among e.path (path_set ds)
unfolding path_set
path_set-Among [] e m = absurd m
path_set-Among (d ∷ ds) e (inl same) = inl (ap (λ x. x.path) same)
path_set-Among (d ∷ ds) e (inr m) =
    let other : Text → Bool = λ p. if bytes_eq d.path p then false else true in
    elim (Bool-cases (bytes_eq d.path e.path)) [
      | inl equal ↦ inl (sym (bytes_eq→eq d.path e.path equal))
      | inr apart ↦
          inr ((filter-Among other (path_set ds) e.path).1 (path_set-Among ds e m, ground arith))
    ]

-- What `unambiguous` gives is in the list, and every element has its path.
unambiguous-ok :
    (ds : List DeviceInfo) (info : DeviceInfo)
    → unambiguous ds ≡ ok info
    → Among info ds × ((e : DeviceInfo) → Among e ds → e.path ≡ info.path)
unfolding path_set
unambiguous-ok [] info h = cc
unambiguous-ok (d ∷ ds) info h =
    let same : d ≡ info = ground arith in
    let others = filter (λ p. if bytes_eq d.path p then false else true) (path_set ds) in
    let few : length others ≤ 0 = ground arith in
    (inl (sym same), λ e m. only others few (path_set-Among (d ∷ ds) e m) ∙ ap (λ x. x.path) same)
  where
    only : (ps : List Text) → length ps ≤ 0 → {p q : Text} → Among p (q ∷ ps) → p ≡ q
    only [] h (inl e) = e
    only [] h (inr m) = absurd m
    only (x ∷ ps) h m = absurd (omega arith)

module _ (vid pid : ℕ) (serial : Option Text) where
  -- The device has these IDs, and the serial number where one is asked for.
  abbrev pub HasId : DeviceInfo → Type 0
  HasId d = (d.vendor_id ≡ vid) × (d.product_id ≡ pid) × (has_serial serial d ≡ true)

  by_id-Among :
      (ds : List DeviceInfo) (d : DeviceInfo)
      → (Among d (by_id vid pid serial ds)) ↔ (Among d ds × HasId d)
  unfolding by_id
  by_id-Among ds d =
      let ids : DeviceInfo → Bool = λ d. d.vendor_id == vid && d.product_id == pid in
      (
        λ m.
            let (m1, s) = (filter-Among (has_serial serial) (filter ids ds) d).0 m in
            let (m2, e) = (filter-Among ids ds d).0 m1 in (m2, (ground arith, ground arith, s)),
        λ (m, (v, p, s)).
            (filter-Among (has_serial serial) (filter ids ds) d).1
              ((filter-Among ids ds d).1 (m, ground arith), s),
      )

keyed-At :
    (page usage : ℕ) (ds : List DeviceInfo) (d : DeviceInfo)
    → (At page usage d (keyed ds)) ↔ (Among d ds × (d.usage_page ≡ page) × (d.usage ≡ usage))
keyed-At page usage ds d =
    let key : DeviceInfo → Candidate DeviceInfo =
      λ d. record { usage_page = d.usage_page; usage = d.usage; value = d } in
    (
      λ (c, m, e, p, u).
          let (x, xm, h) = (map-Among key ds c).0 m in
          let same : d ≡ x = e ∙ ap (λ c. c.value) h in
          (
            subst (λ y. Among y ds) (sym same) xm,
            ap (λ y. y.usage_page) same ∙ sym (ap (λ c. c.usage_page) h) ∙ p,
            ap (λ y. y.usage) same ∙ sym (ap (λ c. c.usage) h) ∙ u,
          ),
      λ (m, p, u). (key d, (map-Among key ds (key d)).1 (d, m, refl), refl, p, u),
    )

-- The device that is opened is in the list, with the IDs, and the serial number where one is asked
-- for. It has the wanted usage, and every device with the IDs and the wanted usage has its path; or
-- its usage is unknown, no device with the IDs has the wanted one, and every device with the IDs and
-- an unknown usage has its path. So the choice is no guess.
pub select-ok :
    (vid pid : ℕ) (serial : Option Text) (wanted : UsageFilter) (devices : List DeviceInfo)
    (info : DeviceInfo)
    → select vid pid serial wanted devices ≡ ok info
    → Among info devices
      × HasId vid pid serial info
      × (((info.usage_page ≡ wanted.page)
            × (info.usage ≡ wanted.usage)
            × ((d : DeviceInfo)
                → Among d devices
                → HasId vid pid serial d
                → d.usage_page ≡ wanted.page
                → d.usage ≡ wanted.usage
                → d.path ≡ info.path))
          ⊎ ((info.usage_page ≡ 0)
              × (info.usage ≡ 0)
              × ((d : DeviceInfo)
                  → Among d devices
                  → HasId vid pid serial d
                  → d.usage_page ≡ wanted.page
                  → d.usage ≡ wanted.usage
                  → ⊥)
              × ((d : DeviceInfo)
                  → Among d devices
                  → HasId vid pid serial d
                  → d.usage_page ≡ 0
                  → d.usage ≡ 0
                  → d.path ≡ info.path)))
unfolding select
select-ok vid pid serial wanted devices info h =
    let ids = by_id vid pid serial devices in
    let (chosen, paths) = unambiguous-ok (narrow wanted (keyed ids)) info h in
    elim (narrow-Among wanted (keyed ids)) [
      | inl (some_exact, which) ↦
          let (m, p, u) = (keyed-At wanted.page wanted.usage ids info).0 ((which info).0 chosen) in
          let (there, id) = (by_id-Among vid pid serial devices info).0 m in
          (
            there,
            id,
            inl (
              p,
              u,
              λ d dm di dp du. paths d (
                  (which d).1 (
                    (keyed-At wanted.page wanted.usage ids d).1
                      ((by_id-Among vid pid serial devices d).1 (dm, di), dp, du))),
            ),
          )
      | inr (no_exact, which) ↦
          let (m, p, u) = (keyed-At 0 0 ids info).0 ((which info).0 chosen) in
          let (there, id) = (by_id-Among vid pid serial devices info).0 m in
          let none_exact : ((d : DeviceInfo)
              → Among d devices
              → HasId vid pid serial d
              → d.usage_page ≡ wanted.page
              → d.usage ≡ wanted.usage
              → ⊥) =
            λ d dm di dp du. no_exact d (
              (keyed-At wanted.page wanted.usage ids d).1
                ((by_id-Among vid pid serial devices d).1 (dm, di), dp, du)) in
          (
            there,
            id,
            inr (
              p,
              u,
              none_exact,
              λ d dm di dp du. paths d (
                  (which d).1 (
                    (keyed-At 0 0 ids d).1
                      ((by_id-Among vid pid serial devices d).1 (dm, di), dp, du))),
            ),
          )
    ]
