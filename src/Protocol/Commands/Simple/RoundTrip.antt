-- ===== src/Protocol/Commands/Simple/RoundTrip.antt =====
-- Acknowledgments and empty requests arrive, and each under its own identifier only.
use wlan_opc.Base.{
  ℕ, ◌≤◌, ◌≡◌, refl, ap, none, some, ◌>>=◌, Bytes, Writes, [], ◌∷◌, drop, length, arith,
  IsAscending, length-fill, ◌==◌, if◌then◌else◌, Bool-cases, inl, inr,
}
use wlan_opc.Protocol.Ids.{cmd_ack, cmd_request}
use wlan_opc.Protocol.Codec.{IsU16, be16_read, be16_write}
use wlan_opc.Protocol.Codec.RoundTrip.{field16, length-be16_write}
use wlan_opc.Protocol.Frame.Laws.{frame_parse-empty_frame_build, empty_frame_build-eq_some}
use wlan_opc.Protocol.Commands.{empty_req_pack, empty_req_unpack}
use wlan_opc.Protocol.Commands.Wire.{frame_build_sent}
use wlan_opc.Protocol.Commands.Records.{Ack}
use wlan_opc.Protocol.Commands.Simple.{simple_ack_body, simple_ack_pack, simple_ack_unpack}

pub record IsWireAck (a : Ack) : Type 0 where
  pub result : IsU16 a.result
  pub cause : IsU16 a.error_cause

abbrev ack_writes : Ack → Writes
ack_writes a = (0, be16_write a.result) ∷ (2, be16_write a.error_cause) ∷ []

ack-IsAscending : (a : Ack) → IsAscending 4 0 (ack_writes a)
ack-IsAscending a = omega (arith, length-be16_write)

read_ack :
    (a : Ack)
    → IsWireAck a
    → Path Ack
        (record {
          result = be16_read (simple_ack_body a.result a.error_cause);
          error_cause = be16_read (drop 2 (simple_ack_body a.result a.error_cause));
        })
        a
unfolding simple_ack_body
read_ack a w =
    let ws = ack_writes a in
    let asc = ack-IsAscending a in
    λ i. record {
      result = field16 4 0 0 a.result ws asc refl w.result i;
      error_cause = field16 4 1 2 a.error_cause ws asc refl w.cause i;
    }

-- A simple acknowledgment packed for a request is a frame of 68 bytes, and the unpack function of
-- that request returns its result and cause, when identifier, sequence number, result and cause fit
-- 16 bits and the buffer holds 68 bytes.
pub simple_ack_round_trip :
    (frame_room req seq : ℕ) (a : Ack)
    → IsU16 req
    → IsU16 seq
    → 68 ≤ frame_room
    → IsWireAck a
    → (frame : Bytes) × (simple_ack_pack frame_room req seq 60 a.result a.error_cause ≡ some frame)
      × (simple_ack_unpack frame req ≡ some a)
      × (length frame ≡ 68)
unfolding simple_ack_pack simple_ack_unpack simple_ack_body
simple_ack_round_trip frame_room req seq a r s room w =
    let (frame, built, parsed, size) =
      frame_build_sent frame_room cmd_ack req seq 4 4 60 (simple_ack_body a.result a.error_cause)
        (length-fill 4 (ack_writes a) (ack-IsAscending a))
        (omega arith, r, omega arith, omega arith, refl) s room in
    (frame, built, rw parsed (ap some (read_ack a w)), size)

-- An empty request is taken by the unpack function of its own identifier and refused by that of any
-- other, when its identifier and sequence number fit 16 bits and the buffer holds 8 bytes.
pub empty_req_round_trip :
    (frame_room req other seq : ℕ)
    → IsU16 req
    → IsU16 seq
    → 8 ≤ frame_room
    → (empty_req_pack frame_room req seq >>= λ frame. empty_req_unpack frame other)
      ≡ (if req == other then some tt else none)
unfolding empty_req_pack empty_req_unpack
empty_req_round_trip frame_room req other seq r s room =
    let built = empty_frame_build-eq_some frame_room cmd_request req seq room in
    let (size, parsed) =
      frame_parse-empty_frame_build frame_room cmd_request req seq (omega arith) r s built in
    elim (Bool-cases (req == other)) [
      | inl hit ↦ rw (built, size, parsed, hit)
      | inr miss ↦ rw (built, size, parsed, miss)
    ]
