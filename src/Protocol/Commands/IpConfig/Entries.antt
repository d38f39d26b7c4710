-- ===== src/Protocol/Commands/IpConfig/Entries.antt =====
-- Which bytes the entries of an unpacked SetIpConfigList request come from.
use native.Mathlib.Nat.{div-div-eq-div-mul, pow-succ'}
use wlan_opc.Base.{
  ℕ, zero, suc, ◌+◌, ◌*◌, ◌/◌, ◌%◌, ◌^◌, ◌<◌, ◌≡◌, refl, sym, ap, ◌∙◌, Bool, true, false, some,
  Bytes, drop, drop-drop, length, get_elem?, ◌==◌, arith,
}
use wlan_opc.Base.Bits.{test_bit}
use wlan_opc.Protocol.Commands.Records.{SetIpConfigListReq}
use wlan_opc.Protocol.Commands.IpConfig.{bit_of, unpack_ipcfg_entry, unpack_entries}

test_bit-here : (b : Bool) (m : ℕ) → test_bit (bit_of b + 2 * m) 0 ≡ b
test_bit-here true m = ground arith
test_bit-here false m = ground arith

half : (b : Bool) (m : ℕ) → (bit_of b + 2 * m) / 2 ≡ m
half true m = omega arith
half false m = omega arith

test_bit-there : (b : Bool) (m i : ℕ) → test_bit (bit_of b + 2 * m) (suc i) ≡ test_bit m i
test_bit-there b m i =
    ap (λ (q : ℕ). q % 2 == 1)
      (ap (λ (d : ℕ). (bit_of b + 2 * m) / d) (pow-succ' 2 i)
        ∙ sym (div-div-eq-div-mul (bit_of b + 2 * m) 2 (2 ^ i))
        ∙ ap (λ (h : ℕ). h / 2 ^ i) (half b m))

pub length-unpack_entries : (n : ℕ) (body : Bytes) → length (unpack_entries n body).entries ≡ n
unfolding unpack_entries
length-unpack_entries zero body = refl
length-unpack_entries (suc n) body = ap suc (length-unpack_entries n (drop 64 body))

-- Entry `i` is the one of the 64 bytes from `64 * i` on, and bit `i` of the mask says whether its ESSID
-- ends there.
pub record IsEntryOf (bytes : Bytes) (req : SetIpConfigListReq) (i : ℕ) : Type 0 where
  pub entry : get_elem? req.entries i ≡ some (unpack_ipcfg_entry (drop (64 * i) bytes)).0
  pub terminated :
      test_bit req.essid_terminated_mask i ≡ (unpack_ipcfg_entry (drop (64 * i) bytes)).1

pub unpack_entries-IsEntryOf :
    (n i : ℕ) (body : Bytes) → i < n → IsEntryOf body (unpack_entries n body) i
unfolding unpack_entries
unpack_entries-IsEntryOf zero i body h = absurd (omega arith)
unpack_entries-IsEntryOf (suc n) zero body h = record {
  entry = refl;
  terminated = test_bit-here _ _;
}
unpack_entries-IsEntryOf (suc n) (suc i) body h =
    let rest = unpack_entries-IsEntryOf n i (drop 64 body) (omega arith) in
    let at : drop (64 * i) (drop 64 body) ≡ drop (64 * suc i) body =
      drop-drop 64 (64 * i) (64 * suc i) body (omega arith) in
    record {
      entry = rest.entry ∙ ap (λ (b : Bytes). some (unpack_ipcfg_entry b).0) at;
      terminated =
          test_bit-there _ _ i ∙ rest.terminated ∙ ap (λ (b : Bytes). (unpack_ipcfg_entry b).1) at;
    }
