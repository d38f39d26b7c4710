-- ===== src/Protocol/Codec.antt =====
-- protocol/codec.c: big-endian integers and the common header. A byte is a number below 256, a
-- pointer into a buffer is the list of the bytes from there on.
pub mod RoundTrip
use wlan_opc.Base.{
  ℕ, suc, ◌+◌, ◌*◌, ◌/◌, ◌%◌, ◌^◌, ◌<◌, ◌≡◌, refl, Bool, Option, none, some, List, [], ◌∷◌, ◌++◌,
  ltb, if◌then◌else◌, length, get_or, drop, replicate, Bytes, arith,
}
use wlan_opc.Protocol.Ids.{fixed_header_size, header_size}

abbrev pub IsU8 : ℕ → Type 0
IsU8 v = v < 256

abbrev pub IsU16 : ℕ → Type 0
IsU16 v = v < 65536

abbrev pub IsU32 : ℕ → Type 0
IsU32 v = v < 4294967296

-- `p[i]`. A read past the end gives 0; every caller checks the size before it reads.
abbrev pub byte_at : Bytes → ℕ → ℕ
byte_at p i = get_or p i 0

-- The shifted bytes share no bit, so `|` is `+`.
unfoldable pub be16_read : Bytes → ℕ
be16_read p = byte_at p 0 * 256 + byte_at p 1

unfoldable pub be32_read : Bytes → ℕ
be32_read p = byte_at p 0 * 16777216 + byte_at p 1 * 65536 + byte_at p 2 * 256 + byte_at p 3

unfoldable pub be16_write : ℕ → Bytes
be16_write v = (v / 256 % 256) ∷ (v % 256) ∷ []

unfoldable pub be32_write : ℕ → Bytes
be32_write v = (v / 16777216 % 256) ∷ (v / 65536 % 256) ∷ (v / 256 % 256) ∷ (v % 256) ∷ []

pub record Header : Type 0 where
  pub protocol_version : ℕ
  pub command_type : ℕ
  pub req_indication_id : ℕ
  pub sequence_number : ℕ
  pub length_field : ℕ

-- The eight bytes that it writes at `buf`.
unfoldable pub fixed_header_pack : Header → Bytes
fixed_header_pack hdr =
    hdr.protocol_version
    ∷ hdr.command_type
    ∷ (be16_write hdr.req_indication_id
        ++ (be16_write hdr.sequence_number ++ be16_write hdr.length_field))

unfoldable pub header_pack : Header → Bytes
unfolding fixed_header_pack
header_pack hdr = fixed_header_pack hdr ++ replicate 56 0

unfoldable pub fixed_header_unpack : Bytes → Option Header
fixed_header_unpack buf =
    if ltb (length buf) fixed_header_size
    then none
    else some (record {
      protocol_version = byte_at buf 0;
      command_type = byte_at buf 1;
      req_indication_id = be16_read (drop 2 buf);
      sequence_number = be16_read (drop 4 buf);
      length_field = be16_read (drop 6 buf);
    })

unfoldable pub header_unpack : Bytes → Option Header
header_unpack buf = if ltb (length buf) header_size then none else fixed_header_unpack buf
