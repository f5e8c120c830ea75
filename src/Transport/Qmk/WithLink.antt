-- ===== src/Transport/Qmk/WithLink.antt =====
-- The construction of a tunnel ends, opened or put back.
use open_boot.Base.{
  ◌<◌, ◌≡◌, ◌≢◌, ◌⊎◌, inl, inr, refl, sym, ap, subst, ◌∙◌, true, false, List, [], ◌∷◌, ◌++◌, Result,
  ok, err, fault, Bytes, arith,
}
use open_boot.Base.Actions.{and_then, raise}
use open_boot.Proto.Crc32.{Crc32}
use open_boot.Transport.Qmk.{ReportLink, Qmk, QmkOpts, QmkError}
use open_boot.Transport.Qmk.Handshake.{handshake, with_link, or_drop, drop, fresh}
use open_boot.Transport.Qmk.Leaving.{drop-Parks, exit_report}
use open_boot.Transport.Qmk.OffAir.{OffAir, handshake-Shakes}

module _ (link : ReportLink) (crc : Crc32) where
  -- An open tunnel: the module is off air and has answered a HELLO, no BOOT is sent, no byte is left.
  pub record IsOpen (s : Qmk link.State) : Type 0 where
    pub passthrough : s.passthrough ≡ true
    pub entered : s.entered ≡ true
    pub booted : s.booted ≡ false
    pub rx : s.rx ≡ []

  -- A handshake from s that failed in t is put back in u: by the EXIT report alone where the module
  -- was taken off air, and otherwise untouched.
  abbrev pub IsPutBack : QmkOpts → Qmk link.State → Qmk link.State → Qmk link.State → Type 0
  IsPutBack opts s t u =
      (OffAir link crc opts s
        × (link.written u.link ≡ link.written t.link ++ (exit_report link ∷ [])))
      ⊎ ((OffAir link crc opts s → ⊥) × (u ≡ t))

  pub none_before : (xs ys : List Bytes) → xs ++ ys ≡ [] → xs ≡ []
  none_before [] ys e = refl
  none_before (x ∷ xs) ys e = cc

  drop-IsPutBack :
      (opts : QmkOpts) (s t : Qmk link.State)
      → t.entered ≡ false
      → (OffAir link crc opts s × (t.passthrough ≡ true))
        ⊎ ((OffAir link crc opts s → ⊥) × (t.passthrough ≡ false))
      → IsPutBack opts s t (drop link crc t).1
  drop-IsPutBack opts s t e (inl (off, on)) = elim (drop-Parks link crc t).1 [
    | inl (closed, same) ↦ absurd (cc (on, closed))
    | inr (shut_off, parks) ↦
        let none_due : parks.boots ++ parks.missing ≡ [] = ground (arith, parks.cut) in
        let no_boots = none_before parks.boots parks.missing none_due in
        inl (
          off,
          parks.log ∙ ap (λ b. link.written t.link ++ (b ++ (exit_report link ∷ []))) no_boots,
        )
  ]
  drop-IsPutBack opts s t e (inr (on_air, closed)) = elim (drop-Parks link crc t).1 [
    | inl (also, same) ↦ inr (on_air, same)
    | inr (shut_off, parks) ↦ absurd (cc (shut_off, closed))
  ]

  pub with_link-ends :
      (opts : QmkOpts) (s : link.State)
      → 0 < opts.status_poll
      → 0 < opts.probe_gap
      → ((with_link link crc opts s).0 ≢ fault)
        × ((with_link link crc opts s).0 ≡ ok tt → IsOpen (with_link link crc opts s).1)
        × ((e : QmkError)
            → (with_link link crc opts s).0 ≡ err e
            → ((handshake link crc opts (fresh link crc s)).0 ≡ err e)
              × IsPutBack opts
                  (fresh link crc s)
                  (handshake link crc opts (fresh link crc s)).1
                  (with_link link crc opts s).1)
  unfolding with_link
  with_link-ends opts s h k =
      let r = handshake link crc opts (fresh link crc s) in
      let p = handshake-Shakes link crc opts (fresh link crc s) h k in
      ends r.0 r.1 p.runs
        (λ e.
          let (on, entered, rx) = p.opened e in
          record { passthrough = on; entered = entered; booted = p.booted; rx = rx })
        p.missed p.air
    where
      ends :
          (r : Result QmkError (Unit {0})) (t : Qmk link.State)
          → r ≢ fault
          → (r ≡ ok tt → IsOpen t)
          → ((e : QmkError) → r ≡ err e → t.entered ≡ false)
          → (OffAir link crc opts (fresh link crc s) × (t.passthrough ≡ true))
            ⊎ ((OffAir link crc opts (fresh link crc s) → ⊥) × (t.passthrough ≡ false))
          → ((or_drop link crc r t).0 ≢ fault)
            × ((or_drop link crc r t).0 ≡ ok tt → IsOpen (or_drop link crc r t).1)
            × ((e : QmkError)
                → (or_drop link crc r t).0 ≡ err e
                → (r ≡ err e) × IsPutBack opts (fresh link crc s) t (or_drop link crc r t).1)
      ends (ok u) t runs opened missed air = (λ z. cc, opened, λ e z. cc)
      ends fault t runs opened missed air = absurd (runs refl)
      ends (err x) t runs opened missed air =
          let failed_with : Result QmkError (Unit {0}) = err x in
          let u = (drop link crc t).1 in
          let e : and_then (λ _. raise x) (ok tt) u ≡ or_drop link crc (err x) t =
            ap (λ q. and_then (λ _. raise x) q u) (sym (drop-Parks link crc t).0) in
          subst
            (λ q.
              (q.0 ≢ fault)
              × (q.0 ≡ ok tt → IsOpen q.1)
              × ((y : QmkError)
                  → q.0 ≡ err y
                  → (failed_with ≡ err y) × IsPutBack opts (fresh link crc s) t q.1))
            e
            (
              λ z. cc,
              λ z. cc,
              λ y z. (z, drop-IsPutBack opts (fresh link crc s) t (missed x refl) air),
            )
