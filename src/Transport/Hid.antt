-- ===== src/Transport/Hid.antt =====
-- tools/src/transport/hidsel.rs and hid.rs: choosing one HID interface, and the transport over it.
-- hidapi is an interface: the list of its devices is an argument, and an opened device a parameter.
pub mod Selection
pub mod Reports
use open_boot.Base.{
  ℕ, zero, suc, ◌+◌, ◌-◌, ◌^◌, ◌≤◌, ◌<◌, ◌≡◌, ◌≢◌, min, max, Bool, true, false, ◌&&◌, List, [], ◌∷◌,
  ◌++◌, map, filter, Option, none, some, Result, ok, err, fault, Bytes, bytes_eq, length, ltb, ◌==◌,
  if◌then◌else◌, replicate, refl, arith,
}
use open_boot.Base.Actions.{Action}
use open_boot.Proto.Consts.{max_frame}
use open_boot.Text.{Text}
use open_boot.Transport.{IoError}

pub record UsageFilter : Type 0 where
  pub page : ℕ
  pub usage : ℕ

unfoldable pub matches : UsageFilter → ℕ → ℕ → Bool
matches filter usage_page usage = usage_page == filter.page && usage == filter.usage

unfoldable pub usage_unknown : ℕ → ℕ → Bool
usage_unknown usage_page usage = usage_page == 0 && usage == 0

-- One entry of the candidates: page, usage and value.
pub record Candidate (T : Type 0) : Type 0 where
  pub usage_page : ℕ
  pub usage : ℕ
  pub value : T

abbrev pub values : {T : Type 0} → List (Candidate T) → List T
values cs = map (λ c. c.value) cs

abbrev pub is_exact : {T : Type 0} → UsageFilter → Candidate T → Bool
is_exact wanted c = matches wanted c.usage_page c.usage

abbrev pub is_unknown : {T : Type 0} → Candidate T → Bool
is_unknown c = usage_unknown c.usage_page c.usage

-- `if !exact.is_empty() { return exact; }`
abbrev pub or_else : {T : Type 0} → List T → List T → List T
or_else [] other = other
or_else (x ∷ xs) other = x ∷ xs

unfoldable pub narrow : {T : Type 0} → UsageFilter → List (Candidate T) → List T
unfolding matches usage_unknown
narrow wanted candidates =
    or_else (values (filter (is_exact wanted) candidates)) (values (filter is_unknown candidates))

-- `hidapi::DeviceInfo`
pub record DeviceInfo : Type 0 where
  pub vendor_id : ℕ
  pub product_id : ℕ
  pub serial_number : Option Text
  pub usage_page : ℕ
  pub usage : ℕ
  pub path : Text

pub data SelectError : Type 0 where
  not_found : SelectError
  ambiguous : ℕ → SelectError

abbrev pub has_serial : Option Text → DeviceInfo → Bool
has_serial none d = true
has_serial (some sn) d = elim d.serial_number [ none ↦ false | some s ↦ bytes_eq s sn ]

unfoldable pub by_id : ℕ → ℕ → Option Text → List DeviceInfo → List DeviceInfo
by_id vid pid serial devices =
    filter (has_serial serial) (filter (λ d. d.vendor_id == vid && d.product_id == pid) devices)

abbrev pub keyed : List DeviceInfo → List (Candidate DeviceInfo)
keyed devices = map (λ d. record { usage_page = d.usage_page; usage = d.usage; value = d }) devices

-- The set of the paths, as a list without repetition.
unfoldable pub path_set : List DeviceInfo → List Text
path_set [] = []
path_set (d ∷ ds) = d.path ∷ filter (λ p. if bytes_eq d.path p then false else true) (path_set ds)

abbrev pub unambiguous : List DeviceInfo → Result SelectError DeviceInfo
unambiguous [] = err not_found
unambiguous (info ∷ more) =
    let paths = length (path_set (info ∷ more)) in
    if ltb 1 paths then err (ambiguous paths) else ok info

-- `open_hid` up to the device that it opens.
unfoldable pub select :
    ℕ → ℕ → Option Text → UsageFilter → List DeviceInfo → Result SelectError DeviceInfo
unfolding by_id narrow path_set
select vid pid serial wanted devices =
    unambiguous (narrow wanted (keyed (by_id vid pid serial devices)))

abbrev pub ob_usage : UsageFilter
ob_usage = record { page = 0xff00; usage = 1 }

-- `hidapi::HidDevice`, opened, and the clock. `read_timeout` gives the bytes it read, none at a
-- timeout. `written` and `budget` are no part of it: the reports handed over, also where the write
-- fails, and a bound on the reports that can still be read by a deadline.
pub record HidDevice : Type 1 where
  pub State : Type 0
  pub now : State → ℕ
  pub write : Bytes → Action State IoError (Unit {0})
  pub read_timeout : ℕ → Action State IoError Bytes
  pub written : State → List Bytes
  pub budget : ℕ → State → ℕ
  pub write-ne-fault : (report : Bytes) (s : State) → (write report s).0 ≢ fault
  pub read-ne-fault : (wait : ℕ) (s : State) → (read_timeout wait s).0 ≢ fault
  pub written-write :
      (report : Bytes) (s : State) → written (write report s).1 ≡ written s ++ (report ∷ [])
  pub written-read : (wait : ℕ) (s : State) → written (read_timeout wait s).1 ≡ written s
  pub budget-read :
      (deadline wait : ℕ) (s : State) (b : ℕ) (bs : Bytes)
      → now s < deadline
      → (read_timeout wait s).0 ≡ ok (b ∷ bs)
      → budget deadline (read_timeout wait s).1 < budget deadline s

-- What `recv_frame` makes of the outcome of a read.
abbrev pub received : Result IoError Bytes → Result IoError (Option Bytes)
received (ok []) = ok none
received (ok (b ∷ bs)) = ok (some (b ∷ bs))
received (err e) = err e
received fault = fault

module _ (dev : HidDevice) where
  -- The drain of `open_hid`, with so many reads left; the results are dropped.
  unfoldable pub drain : ℕ → dev.State → dev.State
  drain zero s = s
  drain (suc n) s =
      let s' = (dev.read_timeout 0 s).1 in
      let more = drain n s' in
      elim (dev.read_timeout 0 s).0 [ ok [] ↦ s' | ok (b ∷ bs) ↦ more | err e ↦ s' | fault ↦ s' ]

  -- A frame beyond the report is a panic of the slice.
  unfoldable pub send_frame : Bytes → Action dev.State IoError (Unit {0})
  send_frame frame s =
      let report = 0 ∷ (frame ++ replicate (max_frame - length frame) 0) in
      if ltb max_frame (length frame) then (fault, s) else dev.write report s

  unfoldable pub recv_frame : ℕ → Action dev.State IoError (Option Bytes)
  recv_frame deadline s =
      let remaining = deadline - dev.now s in
      let r = dev.read_timeout (max (min remaining (2 ^ 31 - 1)) 1) s in
      if remaining == 0 then (ok none, s) else (received r.0, r.1)
