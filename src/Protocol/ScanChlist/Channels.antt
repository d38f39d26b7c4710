-- ===== src/Protocol/ScanChlist/Channels.antt =====
-- The channel tables: a bit and its channel determine each other.
use wlan_opc.Base.{
  ℕ, zero, suc, ◌+◌, ◌*◌, ◌/◌, ◌%◌, ◌<◌, ◌≡◌, refl, ◌≢◌, ◌⊎◌, inl, inr, Bool, true, false, not,
  ◌&&◌, ◌||◌, Option, none, some, ◌==◌, Bool-cases, arith,
}
use wlan_opc.Base.Bits.{table, table_lem}
use wlan_opc.Protocol.ScanChlist.{band_known, row_channel, find_bit, bit_for_channel}

pub band_known_cases : (band : ℕ) → band_known band ≡ true → (band ≡ 1) ⊎ ((band ≡ 2) ⊎ (band ≡ 6))
unfolding band_known
band_known_cases band h = ground arith

abbrev is_at : (row bit : ℕ) → Option (ℕ × ℕ) → Bool
is_at row bit none = false
is_at row bit (some (r, b)) = (r == row) && (b == bit)

is_at→eq : (row bit : ℕ) (o : Option (ℕ × ℕ)) → is_at row bit o ≡ true → o ≡ some (row, bit)
is_at→eq row bit none h = cc
is_at→eq row bit (some (r, b)) h = ground arith

-- `rb` is a row and a bit.
abbrev is_found : (band rb : ℕ) → Bool
is_found band rb =
    let ch = row_channel band (rb / 32) (rb % 32) in
    (ch == 0) || is_at (rb / 32) (rb % 32) (bit_for_channel band ch)

found_24 : table (is_found 1) 64 ≡ true
unfolding table bit_for_channel
found_24 = refl

found_5 : table (is_found 2) 64 ≡ true
unfolding table bit_for_channel
found_5 = refl

found_6 : table (is_found 6) 64 ≡ true
unfolding table bit_for_channel
found_6 = refl

found_table : (band : ℕ) → band_known band ≡ true → table (is_found band) 64 ≡ true
found_table band known = elim (band_known_cases band known) [
  | inl e ↦ rw e found_24
  | inr (inl e) ↦ rw e found_5
  | inr (inr e) ↦ rw e found_6
]

row_channel_bit : (band row bit : ℕ) → row_channel band row bit ≢ 0 → bit < 32
unfolding row_channel
row_channel_bit band row bit h = ground arith

-- In the two rows of a known band, the bit of a channel is the one found for that channel: no two bits
-- of a band name the same channel.
pub bit_for_channel-row_channel :
    (band row bit : ℕ)
    → band_known band ≡ true
    → row < 2
    → row_channel band row bit ≢ 0
    → bit_for_channel band (row_channel band row bit) ≡ some (row, bit)
bit_for_channel-row_channel band row bit known hr h =
    let hb = row_channel_bit band row bit h in
    let q : (32 * row + bit) / 32 ≡ row = omega arith in
    let r : (32 * row + bit) % 32 ≡ bit = omega arith in
    let found =
      table_lem (is_found band) 64 (32 * row + bit) (found_table band known) (omega arith) in
    let entry : ((row_channel band row bit == 0)
          || is_at row bit (bit_for_channel band (row_channel band row bit)))
        ≡ true =
      rw (q, r) at found in
    is_at→eq row bit (bit_for_channel band (row_channel band row bit)) (ground arith)

find_bit_sound :
    (left band ch row bit b : ℕ)
    → find_bit left band ch row bit ≡ some b
    → (row_channel band row b ≡ ch) × (b < bit + left)
unfolding find_bit
find_bit_sound zero band ch row bit b e = absurd (cc)
find_bit_sound (suc left) band ch row bit b e =
    ground (arith, find_bit_sound left band ch row (bit + 1) b)

-- The two rows tried in order.
rows_sound :
    (band ch row bit : ℕ) (a b : Option ℕ)
    → ((k : ℕ) → a ≡ some k → (row_channel band 0 k ≡ ch) × (k < 0 + 32))
    → ((k : ℕ) → b ≡ some k → (row_channel band 1 k ≡ ch) × (k < 0 + 32))
    → ◌≡◌ {A = Option (ℕ × ℕ)}
        (elim a [ some k ↦ some (0, k) | none ↦ elim b [ some k ↦ some (1, k) | none ↦ none ] ])
        (some (row, bit))
    → (row_channel band row bit ≡ ch) × (row < 2) × (bit < 32)
rows_sound band ch row bit (some k) b ha hb e =
    let er : 0 ≡ row = cc in
    let eb : k ≡ bit = cc in
    let (named, small) = ha k refl in rw (← er, ← eb) (named, omega arith, omega arith)
rows_sound band ch row bit none (some k) ha hb e =
    let er : 1 ≡ row = cc in
    let eb : k ≡ bit = cc in
    let (named, small) = hb k refl in rw (← er, ← eb) (named, omega arith, omega arith)
rows_sound band ch row bit none none ha hb e = absurd (cc)

-- The row and bit found for a channel name that channel and lie inside the 64-bit list.
pub row_channel-bit_for_channel :
    (band ch row bit : ℕ)
    → bit_for_channel band ch ≡ some (row, bit)
    → (row_channel band row bit ≡ ch) × (row < 2) × (bit < 32)
unfolding bit_for_channel
row_channel-bit_for_channel band ch row bit e =
    elim (Bool-cases ((ch == 0) || not (band_known band))) [
      | inl t ↦ absurd (let f = rw t at e in cc)
      | inr t ↦
          rows_sound band ch row bit (find_bit 32 band ch 0 0) (find_bit 32 band ch 1 0)
            (λ k. find_bit_sound 32 band ch 0 0 k) (λ k. find_bit_sound 32 band ch 1 0 k)
            (rw t at e)
    ]

pub bit_for_channel-known :
    (band ch row bit : ℕ)
    → bit_for_channel band ch ≡ some (row, bit)
    → (band_known band ≡ true) × (ch ≢ 0)
unfolding bit_for_channel
bit_for_channel-known band ch row bit e = elim (Bool-cases ((ch == 0) || not (band_known band))) [
  | inl t ↦ absurd (let f = rw t at e in cc)
  | inr t ↦ (ground arith, ground arith)
]
