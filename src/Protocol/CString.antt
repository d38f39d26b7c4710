-- ===== src/Protocol/CString.antt =====
-- protocol/strutil.h and the string helpers of protocol/commands.c: fixed-width text fields. A
-- `char` array is the list of its bytes.
use wlan_opc.Base.{
  ℕ, zero, suc, ◌-◌, ◌≡◌, refl, ap, ◌∙◌, Bool, true, false, [], ◌∷◌, ◌++◌, ◌==◌, Bool-cases, inl,
  inr, if◌then◌else◌, length, take, drop, zeros, zeros_eq, set, Bytes, length-replicate, Writes,
  IsAscending, fill, drop-fill, get_elem?, some, take-append, arith,
}

-- `while (i < cap && s[i] != '\0') i++;`. An array that ends stops the scan.
unfoldable pub bounded_strnlen : Bytes → ℕ → ℕ
bounded_strnlen s zero = 0
bounded_strnlen [] (suc room) = 0
bounded_strnlen (c ∷ s) (suc room) = if c == 0 then 0 else suc (bounded_strnlen s room)

-- The `dst_len` bytes of the destination: the text, cut to leave room for a NUL, then zeros.
unfoldable pub copy_with_null_pad : ℕ → Bytes → Bytes
copy_with_null_pad zero src = []
copy_with_null_pad (suc room) src =
    let n = bounded_strnlen src room in take n src ++ zeros (suc room - n)

-- `memchr(src, '\0', n) != NULL`
unfoldable pub has_nul : ℕ → Bytes → Bool
has_nul zero src = false
has_nul (suc n) [] = false
has_nul (suc n) (c ∷ src) = if c == 0 then true else has_nul n src

-- The field with its last byte forced to NUL, and whether it held a NUL before.
unfoldable pub copy_string_field : ℕ → Bytes → Bytes × Bool
copy_string_field dst_len src = (set (take dst_len src) (dst_len - 1) 0, has_nul dst_len src)

pad_nil : (room : ℕ) → copy_with_null_pad (suc room) [] ≡ zeros (suc room)
unfolding copy_with_null_pad bounded_strnlen
pad_nil zero = refl
pad_nil (suc room) = zeros_eq (suc (suc room) - 0) (suc (suc room)) (omega arith)

pad_nul :
    (room c : ℕ) (s : Bytes)
    → (c == 0) ≡ true
    → copy_with_null_pad (suc room) (c ∷ s) ≡ zeros (suc room)
unfolding copy_with_null_pad bounded_strnlen
pad_nul zero c s e = refl
pad_nul (suc room) c s e =
    rw (e, if◌then◌else◌) (zeros_eq (suc (suc room) - 0) (suc (suc room)) (omega arith))

pad_cons :
    (room c : ℕ) (s : Bytes)
    → (c == 0) ≡ false
    → copy_with_null_pad (suc (suc room)) (c ∷ s) ≡ c ∷ copy_with_null_pad (suc room) s
unfolding copy_with_null_pad bounded_strnlen
pad_cons room c s e =
    let n = bounded_strnlen s room in
    rw (e, if◌then◌else◌)
      (ap (λ (z : Bytes). c ∷ (take n s ++ z))
        (zeros_eq (suc (suc room) - suc n) (suc room - n) (omega arith)))

set-replicate : (n i : ℕ) → set (zeros n) i 0 ≡ zeros n
set-replicate zero i = refl
set-replicate (suc n) zero = refl
set-replicate (suc n) (suc i) = ap (◌∷◌ 0) (set-replicate n i)

-- The three facts on a padded field, by one induction.
pub record IsPadded (room : ℕ) (f : Bytes) : Type 0 where
  pub size : length f ≡ suc room
  pub kept : set f room 0 ≡ f
  pub nul : (rest : Bytes) → has_nul (suc room) (f ++ rest) ≡ true

replicate-IsPadded : (room : ℕ) → IsPadded room (zeros (suc room))
unfolding has_nul
replicate-IsPadded room = record {
  size = length-replicate (suc room) zero;
  kept = set-replicate (suc room) room;
  nul = λ rest. refl;
}

copy_with_null_pad-IsPadded :
    (room : ℕ) (src : Bytes) → IsPadded room (copy_with_null_pad (suc room) src)
unfolding has_nul
copy_with_null_pad-IsPadded room [] = rw (pad_nil room) (replicate-IsPadded room)
copy_with_null_pad-IsPadded zero (c ∷ s) =
    unfold copy_with_null_pad bounded_strnlen in replicate-IsPadded zero
copy_with_null_pad-IsPadded (suc room) (c ∷ s) = elim (Bool-cases (c == 0)) [
  | inl e ↦ rw (pad_nul (suc room) c s e) (replicate-IsPadded (suc room))
  | inr e ↦
      let ih = copy_with_null_pad-IsPadded room s in
      rw (pad_cons room c s e) (record {
        size = ap suc ih.size;
        kept = ap (◌∷◌ c) ih.kept;
        nul = λ rest. rw e (ih.nul rest);
      })
]

pub length-copy_with_null_pad : (n : ℕ) (src : Bytes) → length (copy_with_null_pad n src) ≡ n
length-copy_with_null_pad zero src = unfold copy_with_null_pad in refl
length-copy_with_null_pad (suc room) src = (copy_with_null_pad-IsPadded room src).size

-- A padded text is read back whole, and seen to be terminated.
pub copy_string_field-pad :
    (room : ℕ) (src rest : Bytes)
    → copy_string_field (suc room) (copy_with_null_pad (suc room) src ++ rest)
      ≡ (copy_with_null_pad (suc room) src, true)
unfolding copy_string_field
copy_string_field-pad room src rest =
    let f = copy_with_null_pad (suc room) src in
    let p = copy_with_null_pad-IsPadded room src in
    let last : suc room - 1 ≡ room = omega arith in
    rw (take-append (suc room) f rest p.size, p.nul rest, last)
      (ap (λ (b : Bytes). (b, true)) p.kept)

-- A text field of a filled buffer.
pub string_field :
    (n i off room : ℕ) (src : Bytes) (ws : Writes)
    → IsAscending n 0 ws
    → get_elem? ws i ≡ some (off, copy_with_null_pad (suc room) src)
    → copy_string_field (suc room) (drop off (fill n ws))
      ≡ (copy_with_null_pad (suc room) src, true)
string_field n i off room src ws asc e =
    let (rest, p) = drop-fill n i off (copy_with_null_pad (suc room) src) ws asc e in
    ap (copy_string_field (suc room)) p ∙ copy_string_field-pad room src rest
