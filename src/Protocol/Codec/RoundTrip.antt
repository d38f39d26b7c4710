-- ===== src/Protocol/Codec/RoundTrip.antt =====
-- What is written is read back: big-endian integers, the header, and the fields of a filled buffer.
use wlan_opc.Base.{
  ℕ, ◌≡◌, refl, ap, ◌∙◌, some, [], ◌∷◌, ◌++◌, length, get_elem?, drop, replicate, Bytes, Writes,
  fill, IsAscending, Reads, drop-fill, arith,
}
use wlan_opc.Protocol.Codec.{
  IsU8, IsU16, IsU32, byte_at, be16_read, be32_read, be16_write, be32_write, Header,
  fixed_header_pack, fixed_header_unpack, header_pack,
}

pub length-be16_write : (v : ℕ) → length (be16_write v) ≡ 2
unfolding be16_write
length-be16_write v = refl

pub length-be32_write : (v : ℕ) → length (be32_write v) ≡ 4
unfolding be32_write
length-be32_write v = refl

pub be16_read-write : (v : ℕ) (rest : Bytes) → IsU16 v → be16_read (be16_write v ++ rest) ≡ v
unfolding be16_read be16_write
be16_read-write v rest h = omega arith

pub be32_read-write : (v : ℕ) (rest : Bytes) → IsU32 v → be32_read (be32_write v ++ rest) ≡ v
unfolding be32_read be32_write
be32_read-write v rest h = omega arith

-- Fields of a buffer, by what stands at their offset.
module _ (p : Bytes) (off v : ℕ) where
  pub read16 : Reads p off (be16_write v) → IsU16 v → be16_read (drop off p) ≡ v
  read16 (rest, e) h = ap be16_read e ∙ be16_read-write v rest h

  pub read32 : Reads p off (be32_write v) → IsU32 v → be32_read (drop off p) ≡ v
  read32 (rest, e) h = ap be32_read e ∙ be32_read-write v rest h

  pub read8 : Reads p off (v ∷ []) → byte_at (drop off p) 0 ≡ v
  read8 (rest, e) = ap (λ (b : Bytes). byte_at b 0) e

-- Fields of a filled buffer.
module _ (n i off v : ℕ) (ws : Writes) (asc : IsAscending n 0 ws) where
  pub field16 :
      get_elem? ws i ≡ some (off, be16_write v) → IsU16 v → be16_read (drop off (fill n ws)) ≡ v
  field16 e h = read16 (fill n ws) off v (drop-fill n i off (be16_write v) ws asc e) h

  pub field32 :
      get_elem? ws i ≡ some (off, be32_write v) → IsU32 v → be32_read (drop off (fill n ws)) ≡ v
  field32 e h = read32 (fill n ws) off v (drop-fill n i off (be32_write v) ws asc e) h

  pub field8 : get_elem? ws i ≡ some (off, v ∷ []) → byte_at (drop off (fill n ws)) 0 ≡ v
  field8 e = read8 (fill n ws) off v (drop-fill n i off (v ∷ []) ws asc e)

pub record IsWireHeader (h : Header) : Type 0 where
  pub version : IsU8 h.protocol_version
  pub kind : IsU8 h.command_type
  pub id : IsU16 h.req_indication_id
  pub seq : IsU16 h.sequence_number
  pub len : IsU16 h.length_field

pub fixed_header_unpack-pack :
    (h : Header) (rest : Bytes)
    → IsWireHeader h
    → fixed_header_unpack (fixed_header_pack h ++ rest) ≡ some h
unfolding fixed_header_unpack fixed_header_pack be16_write be16_read
fixed_header_unpack-pack h rest w = ground arith

pub length-header_pack : (h : Header) → length (header_pack h) ≡ 64
unfolding header_pack be16_write
length-header_pack h = refl

pub drop-header_pack : (h : Header) (body : Bytes) → drop 64 (header_pack h ++ body) ≡ body
unfolding header_pack be16_write
drop-header_pack h body = refl

pub fixed_header_unpack-header_pack :
    (h : Header) (body : Bytes)
    → IsWireHeader h
    → fixed_header_unpack (header_pack h ++ body) ≡ some h
unfolding header_pack be16_write
fixed_header_unpack-header_pack h body w = fixed_header_unpack-pack h (replicate 56 0 ++ body) w
