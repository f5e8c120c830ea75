-- ===== src/Proto/DeviceInfo/Parse.antt =====
-- `parse` accepts exactly the payloads that are long enough and report a usable geometry.
use open_boot.Base.{◌≤◌, ◌≡◌, ok, Bytes, length, arith}
use open_boot.Proto.Consts.{hello_resp_len}
use open_boot.Proto.DeviceInfo.{DeviceInfo, IsUsable, read_fields, check, parse}

check-ok : (info info' : DeviceInfo) → check info ≡ ok info' → IsUsable info × (info' ≡ info)
unfolding check
check-ok info info' h = ground arith

check-IsUsable : (info : DeviceInfo) → IsUsable info → check info ≡ ok info
unfolding check
check-IsUsable info u = ground arith

parse-ok :
    (payload : Bytes) (info : DeviceInfo)
    → parse payload ≡ ok info
    → (hello_resp_len ≤ length payload) × (check (read_fields payload) ≡ ok info)
unfolding parse
parse-ok payload info h = ground arith

-- What `parse` accepts is a payload of the full length at least, the result is the fields at their
-- offsets, and the geometry is usable: the region is not empty, the erase block, the alignment and
-- the chunk are not zero, the chunk is a multiple of 4 within the protocol's limit, the slots are
-- known, and the write window lies in the region.
pub parse-IsUsable :
    (payload : Bytes) (info : DeviceInfo)
    → parse payload ≡ ok info
    → (hello_resp_len ≤ length payload) × (info ≡ read_fields payload) × IsUsable info
parse-IsUsable payload info h =
    let (long, checked) = parse-ok payload info h in
    let (usable, same) = check-ok (read_fields payload) info checked in (long, same, rw same usable)

pub parse_accepts :
    (payload : Bytes)
    → hello_resp_len ≤ length payload
    → IsUsable (read_fields payload)
    → parse payload ≡ ok (read_fields payload)
unfolding parse
parse_accepts payload long u = rw (check-IsUsable (read_fields payload) u) (ground arith)
