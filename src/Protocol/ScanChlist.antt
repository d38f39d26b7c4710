-- ===== src/Protocol/ScanChlist.antt =====
-- protocol/scan_chlist.c: the channel bitmaps of a scan list. A list is its eight bytes; `bit` and
-- `row` are not negative.
pub mod Channels
use wlan_opc.Base.{
  ℕ, zero, suc, ◌+◌, ◌-◌, ◌*◌, ◌/◌, ◌%◌, ◌^◌, Bool, true, false, not, ◌&&◌, ◌||◌, Option, none,
  some, Bytes, List, [], ◌∷◌, ◌++◌, ltb, leb, ◌==◌, ◌/=◌, if◌then◌else◌, length, take, drop, set,
  zeros,
}
use wlan_opc.Base.Bits.{bit_or, test_bit}
use wlan_opc.Protocol.Codec.{byte_at, be32_read}

abbrev pub band_2_4ghz : ℕ
band_2_4ghz = 0x0001

abbrev pub band_5ghz : ℕ
band_5ghz = 0x0002

abbrev pub band_6ghz : ℕ
band_6ghz = 0x0006

abbrev pub band_unset : ℕ
band_unset = 0xFFFF

abbrev pub row_a : ℕ
row_a = 0

abbrev pub row_b : ℕ
row_b = 1

unfoldable pub band_or_unset : ℕ → ℕ
band_or_unset band = if band == 0 then band_unset else band

unfoldable pub band_known : ℕ → Bool
band_known band = (band == band_2_4ghz) || ((band == band_5ghz) || (band == band_6ghz))

unfoldable pub band_supported : ℕ → Bool
band_supported band = (band == band_2_4ghz) || (band == band_5ghz)

-- The channel that a bit names, 0 for none.
unfoldable pub row_channel : (band row bit : ℕ) → ℕ
row_channel band row bit =
    if ltb 31 bit
    then 0
    else if band == band_2_4ghz
    then if (row == row_a) && leb bit 13 then bit + 1 else 0
    else if band == band_5ghz
    then if row /= row_a
      then 0
      else if leb bit 7
      then 36 + 4 * bit
      else if leb bit 19
      then 100 + 4 * (bit - 8)
      else if leb bit 24
      then 149 + 4 * (bit - 20)
      else 0
    else if band == band_6ghz
    then if row == row_a
      then 1 + 4 * bit
      else if (row == row_b) && leb bit 26
      then 129 + 4 * bit
      else 0
    else 0

-- The inner loop, with `left` bits still to be tried.
unfoldable pub find_bit : (left band ch row bit : ℕ) → Option ℕ
find_bit zero band ch row bit = none
find_bit (suc left) band ch row bit =
    let rest = find_bit left band ch row (bit + 1) in
    if row_channel band row bit == ch then some bit else rest

-- The row and bit of a channel.
unfoldable pub bit_for_channel : (band ch : ℕ) → Option (ℕ × ℕ)
unfolding find_bit band_known row_channel
bit_for_channel band ch =
    if (ch == 0) || not (band_known band) then none else elim (find_bit 32 band ch row_a 0) [
      | some bit ↦ some (row_a, bit)
      | none ↦ elim (find_bit 32 band ch row_b 0) [ some bit ↦ some (row_b, bit) | none ↦ none ]
    ]

abbrev is_some {ℓ} : {A : Type ℓ} → Option A → Bool
is_some none = false
is_some (some a) = true

unfoldable pub channel_mhz : (band ch : ℕ) → ℕ
unfolding bit_for_channel
channel_mhz band ch =
    if not (is_some (bit_for_channel band ch))
    then 0
    else if band == band_2_4ghz
    then if ch == 14 then 2484 else 2407 + 5 * ch
    else if band == band_5ghz
    then 5000 + 5 * ch
    else if band == band_6ghz
    then 5950 + 5 * ch
    else 0

-- OPC_SCAN_ROW_A_FIRST is 1.
abbrev pub row_offset : ℕ → ℕ
row_offset row = row * 4

unfoldable pub row_word : Bytes → ℕ → ℕ
unfolding be32_read
row_word list row = be32_read (drop (row_offset row) list)

unfoldable pub row_set_bit : Bytes → (row bit : ℕ) → Bytes
row_set_bit list row bit =
    let off = row_offset row + 3 - bit / 8 in
    set list off (bit_or (byte_at list off) (2 ^ (bit % 8)))

unfoldable pub list_set_channel : Bytes → (band ch : ℕ) → Bytes
list_set_channel list band ch = elim (bit_for_channel band ch) [
  | some (row, bit) ↦ row_set_bit list row bit
  | none ↦ list
]

unfoldable pub list_empty : Bytes → Bool
list_empty [] = true
list_empty (b ∷ bs) = if b /= 0 then false else list_empty bs

-- The list after the call, and whether row B was moved to row A.
unfoldable pub list_normalize_rows : ℕ → Bytes → Bytes × Bool
list_normalize_rows band list =
    if not (band_supported band)
    then (list, false)
    else if (row_word list row_a /= 0) || (row_word list row_b == 0)
    then (list, false)
    else (take 4 (drop 4 list) ++ zeros 4, true)

-- Some bit of the word from `bit` on is set and names no channel.
unfoldable pub bad_bit : (left band row word bit : ℕ) → Bool
bad_bit zero band row word bit = false
bad_bit (suc left) band row word bit =
    let rest = bad_bit left band row word (bit + 1) in
    if test_bit word bit && (row_channel band row bit == 0) then true else rest

unfoldable pub list_valid : ℕ → Bytes → Bool
list_valid band list =
    if not (band_known band)
    then list_empty list
    else if band == band_6ghz
    then not (bad_bit 32 band row_a (row_word list row_a) 0)
      && not (bad_bit 32 band row_b (row_word list row_b) 0)
    else if row_word list row_b /= 0
    then false
    else not (bad_bit 32 band row_a (row_word list row_a) 0)

-- The channels of the bits from `bit` on that are set, or of all.
unfoldable pub row_channels : (left band row word bit : ℕ) → Bool → List ℕ
row_channels zero band row word bit all = []
row_channels (suc left) band row word bit all =
    let ch = row_channel band row bit in
    let rest = row_channels left band row word (bit + 1) all in
    if ch == 0 then rest else if all || test_bit word bit then ch ∷ rest else rest

-- All channels of the list; the caller's array takes the first `max`, the result counts them all.
unfoldable pub list_channels : ℕ → Bytes → List ℕ
list_channels band list =
    let all = list_empty list in
    if not (band_known band)
    then []
    else if band == band_6ghz
    then row_channels 32 band row_a (row_word list row_a) 0 all
      ++ row_channels 32 band row_b (row_word list row_b) 0 all
    else row_channels 32 band row_a (row_word list row_a) 0 all

-- `freq_mhz` and `ch_field`, from the first channel of the list.
unfoldable pub derive_freq_ch : ℕ → Bytes → ℕ × ℕ
derive_freq_ch band list =
    if not (band_known band) || list_empty list then (0, 0) else elim (list_channels band list) [
      | [] ↦ (0, 0)
      | ch ∷ _ ↦
          let mhz = channel_mhz band ch in
          if mhz == 0 then (0, 0) else (mhz, (band % 256 * 256 + ch) % 65536)
    ]
