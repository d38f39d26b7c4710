-- ===== src/Protocol/Commands/Message.antt =====
-- The requests with a body of fixed size as one family: what is sent, and what arrives.
use wlan_opc.Base.{ℕ, ◌≤◌, ◌≡◌, Option, some, none, Bytes, ◌>>=◌, true}
use wlan_opc.Protocol.Codec.{IsU16}
use wlan_opc.Protocol.CString.{copy_with_null_pad}
use wlan_opc.Protocol.Commands.Records.{
  LoginReq, SetPasswordReq, ChangeIpAddressReq, SetRadioConfigReq, SetIndicationConfigReq,
}
use wlan_opc.Protocol.Commands.Requests.{
  login_req_pack, login_req_unpack, set_password_req_pack, set_password_req_unpack,
  change_ip_address_req_pack, change_ip_address_req_unpack, set_radio_config_req_pack,
  set_radio_config_req_unpack, set_indication_config_req_pack, set_indication_config_req_unpack,
}
use wlan_opc.Protocol.Commands.Requests.RoundTrip.{
  login_req_round_trip, set_password_req_round_trip, change_ip_address_req_round_trip,
  set_radio_config_req_round_trip, set_indication_config_req_round_trip, IsWireRadioConfig,
  IsWireIndicationConfig,
}

pub data Request : Type 0 where
  login : LoginReq → Request
  set_password : SetPasswordReq → Request
  change_ip_address : ChangeIpAddressReq → Request
  set_radio_config : SetRadioConfigReq → Request
  set_indication_config : SetIndicationConfigReq → Request

unfoldable pub request_pack : (frame_room seq : ℕ) → Request → Option Bytes
request_pack room seq (login req) = login_req_pack room seq req
request_pack room seq (set_password req) = set_password_req_pack room seq req
request_pack room seq (change_ip_address req) = change_ip_address_req_pack room seq req
request_pack room seq (set_radio_config req) = set_radio_config_req_pack room seq req
request_pack room seq (set_indication_config req) = set_indication_config_req_pack room seq req

-- The unpack function of the same request as the first argument.
unfoldable pub unpack_as : Request → Bytes → Option Request
unpack_as (login _) frame = login_req_unpack frame >>= λ req. some (login req)
unpack_as (set_password _) frame = set_password_req_unpack frame >>= λ req. some (set_password req)
unpack_as (change_ip_address _) frame =
    change_ip_address_req_unpack frame >>= λ req. some (change_ip_address req)
unpack_as (set_radio_config _) frame =
    set_radio_config_req_unpack frame >>= λ req. some (set_radio_config req)
unpack_as (set_indication_config _) frame =
    set_indication_config_req_unpack frame >>= λ req. some (set_indication_config req)

abbrev pub frame_size : Request → ℕ
frame_size (login req) = 192
frame_size (set_password req) = 320
frame_size (change_ip_address req) = 68
frame_size (set_radio_config req) = 92
frame_size (set_indication_config req) = 72

abbrev pub IsWire : Request → Type 0
IsWire (login req) = Unit {0}
IsWire (set_password req) = Unit {0}
IsWire (change_ip_address req) = IsU16 req.list_number
IsWire (set_radio_config req) = IsWireRadioConfig req
IsWire (set_indication_config req) = IsWireIndicationConfig req

-- Passwords are padded, and cut to leave room for their NUL.
abbrev pub arrived : Request → Request
arrived (login req) =
    login (record { password = copy_with_null_pad 128 req.password; password_terminated = true })
arrived (set_password req) = set_password (record {
  old_password = copy_with_null_pad 128 req.old_password;
  new_password = copy_with_null_pad 128 req.new_password;
  old_password_terminated = true;
  new_password_terminated = true;
})
arrived (change_ip_address req) = change_ip_address req
arrived (set_radio_config req) = set_radio_config req
arrived (set_indication_config req) = set_indication_config req

rewrap :
    {A : Type 0} (o : Option Bytes) (unpack : Bytes → Option A) (wrap : A → Request) {a : A}
    → (o >>= unpack) ≡ some a
    → (o >>= λ frame. unpack frame >>= λ req. some (wrap req)) ≡ some (wrap a)
rewrap none unpack wrap e = absurd (cc)
rewrap (some frame) unpack wrap e = rw e

-- A Login, SetPassword, ChangeIpAddress, SetRadioConfig or SetIndicationConfig request, packed, is
-- returned by its unpack function unchanged but for the passwords, which are padded to 128 bytes, cut
-- to 127 or to the first NUL before, and marked as terminated; its fields fit their widths, the
-- sequence number fits 16 bits and the buffer holds the frame.
pub request_round_trip :
    (frame_room seq : ℕ) (r : Request)
    → IsU16 seq
    → frame_size r ≤ frame_room
    → IsWire r
    → (request_pack frame_room seq r >>= unpack_as r) ≡ some (arrived r)
unfolding request_pack unpack_as
request_round_trip room seq (login req) hs hr w =
    rewrap (login_req_pack room seq req) login_req_unpack login
      (login_req_round_trip room seq req hs hr)
request_round_trip room seq (set_password req) hs hr w =
    rewrap (set_password_req_pack room seq req) set_password_req_unpack set_password
      (set_password_req_round_trip room seq req hs hr)
request_round_trip room seq (change_ip_address req) hs hr w =
    rewrap (change_ip_address_req_pack room seq req) change_ip_address_req_unpack change_ip_address
      (change_ip_address_req_round_trip room seq req hs hr w)
request_round_trip room seq (set_radio_config req) hs hr w =
    rewrap (set_radio_config_req_pack room seq req) set_radio_config_req_unpack set_radio_config
      (set_radio_config_req_round_trip room seq req hs hr w)
request_round_trip room seq (set_indication_config req) hs hr w =
    rewrap (set_indication_config_req_pack room seq req) set_indication_config_req_unpack
      set_indication_config (set_indication_config_req_round_trip room seq req hs hr w)
