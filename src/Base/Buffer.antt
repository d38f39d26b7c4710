-- ===== src/Base/Buffer.antt =====
-- Byte buffers: a zeroed array that a function fills by writes at fixed offsets, and what can be
-- read back from it.
use Prim.Native.Nat.{ℕ, zero, suc, ◌+◌, ◌-◌, ◌≤◌}
use mathlib.Core.Path.{◌≡◌, refl, ap, ◌∙◌}
use mathlib.Core.List.{List, [], ◌∷◌, ◌++◌, append_assoc}
use mathlib.Core.Option.{some}
use native.Mathlib.Omega.{arith}
use wlan_opc.Base.Lists.{
  length, get_elem?, take, drop, replicate, length-append, length-replicate, drop-append_ge,
  drop-append_le, drop-append, take-append, take-append_ge, drop-replicate, take-replicate,
}

abbrev pub Bytes : Type 0
Bytes = List ℕ

-- `memset(buf, 0, n)`
abbrev pub zeros : ℕ → Bytes
zeros n = replicate n 0

pub zeros_eq : (m n : ℕ) → m ≡ n → zeros m ≡ zeros n
zeros_eq m n e = ap zeros e

-- `memcpy(&buf[off], bs, length bs)`
abbrev pub write : ℕ → Bytes → Bytes → Bytes
write off bs buf = take off buf ++ (bs ++ drop (off + length bs) buf)

abbrev pub Writes : Type 0
Writes = List (ℕ × Bytes)

abbrev pub write_all : Bytes → Writes → Bytes
write_all buf [] = buf
write_all buf ((off, bs) ∷ ws) = write_all (write off bs buf) ws

-- `memset(buf, 0, n)`, then the writes in order.
pub fill : ℕ → Writes → Bytes
fill n ws = write_all (replicate n 0) ws

-- The writes come in order of their offsets, do not overlap, and stay inside `n` bytes.
abbrev pub IsAscending : ℕ → ℕ → Writes → Type 0
IsAscending n pos [] = pos ≤ n
IsAscending n pos ((off, bs) ∷ ws) = (pos ≤ off) × IsAscending n (off + length bs) ws

-- The same buffer as one row: each piece behind the zeros before it.
abbrev layout : ℕ → ℕ → Writes → Bytes
layout n pos [] = replicate (n - pos) 0
layout n pos ((off, bs) ∷ ws) = replicate (off - pos) 0 ++ (bs ++ layout n (off + length bs) ws)

write-append_zeros :
    (off pos k gap rest : ℕ) (bs pre : Bytes)
    → length pre ≡ pos
    → off ≡ pos + gap
    → k ≡ gap + (length bs + rest)
    → write off bs (pre ++ replicate k 0) ≡ (pre ++ (replicate gap 0 ++ bs)) ++ replicate rest 0
write-append_zeros off pos k gap rest bs pre hp ho hk =
    rw
      (
        take-append_ge off gap pre (replicate k 0) (omega arith),
        take-replicate gap k (length bs + rest) zero hk,
        drop-append_ge (off + length bs) (gap + length bs) pre (replicate k 0) (omega arith),
        drop-replicate (gap + length bs) k rest zero (omega arith),
      )
      (simp append_assoc)

IsAscending-le : (n pos : ℕ) (ws : Writes) → IsAscending n pos ws → pos ≤ n
IsAscending-le n pos [] h = h
IsAscending-le n pos ((off, bs) ∷ ws) h = omega (arith, IsAscending-le n (off + length bs) ws h.1)

write_all-layout :
    (n pos : ℕ) (pre : Bytes) (ws : Writes)
    → length pre ≡ pos
    → IsAscending n pos ws
    → write_all (pre ++ replicate (n - pos) 0) ws ≡ pre ++ layout n pos ws
write_all-layout n pos pre [] hp h = refl
write_all-layout n pos pre ((off, bs) ∷ ws) hp h =
    ap (λ (b : Bytes). write_all b ws)
      (write-append_zeros off pos (n - pos) (off - pos) (n - (off + length bs)) bs pre hp
        (omega arith) (omega (arith, IsAscending-le n (off + length bs) ws h.1)))
    ∙ write_all-layout n (off + length bs) (pre ++ (replicate (off - pos) 0 ++ bs)) ws
        (omega (
          arith,
          length-append pre (replicate (off - pos) 0 ++ bs),
          length-append (replicate (off - pos) 0) bs,
          length-replicate (off - pos) zero,
        ))
        h.1
    ∙ simp append_assoc

pub fill-layout : (n : ℕ) (ws : Writes) → IsAscending n 0 ws → fill n ws ≡ layout n 0 ws
unfolding fill
fill-layout n ws h =
    ap (λ (k : ℕ). write_all (replicate k 0) ws) (omega arith) ∙ write_all-layout n 0 [] ws refl h

length-layout :
    (n pos : ℕ) (ws : Writes) → IsAscending n pos ws → pos + length (layout n pos ws) ≡ n
length-layout n pos [] h = omega (arith, length-replicate (n - pos) zero)
length-layout n pos ((off, bs) ∷ ws) h =
    let rest = layout n (off + length bs) ws in
    omega (
      arith,
      length-append (replicate (off - pos) 0) (bs ++ rest),
      length-append bs rest,
      length-replicate (off - pos) zero,
      length-layout n (off + length bs) ws h.1,
    )

-- The buffer keeps its size.
pub length-fill : (n : ℕ) (ws : Writes) → IsAscending n 0 ws → length (fill n ws) ≡ n
length-fill n ws h = rw (fill-layout n ws h) (omega (arith, length-layout n 0 ws h))

drop-layout :
    (n pos i off : ℕ) (bs : Bytes) (ws : Writes)
    → IsAscending n pos ws
    → get_elem? ws i ≡ some (off, bs)
    → (pos ≤ off) × (rest : Bytes) × (drop (off - pos) (layout n pos ws) ≡ bs ++ rest)
drop-layout n pos i off bs [] h e = absurd (cc)
drop-layout n pos zero off bs ((o, b) ∷ ws) h e =
    let eo : o ≡ off = cc in
    let eb : b ≡ bs = cc in
    (
      omega arith,
      layout n (o + length b) ws,
      rw (← eo, ← eb)
          (drop-append (o - pos) (replicate (o - pos) 0) (b ++ layout n (o + length b) ws)
            (length-replicate (o - pos) zero)),
    )
drop-layout n pos (suc i) off bs ((o, b) ∷ ws) h e =
    let (le, rest, ih) = drop-layout n (o + length b) i off bs ws h.1 e in
    let tail = layout n (o + length b) ws in
    (
      omega arith,
      rest,
      drop-append_ge (off - pos) (length b + (off - (o + length b))) (replicate (o - pos) 0)
            (b ++ tail) (omega (arith, length-replicate (o - pos) zero))
          ∙ drop-append_ge (length b + (off - (o + length b))) (off - (o + length b)) b tail refl
          ∙ ih,
    )

-- `bs` stands at `off`.
abbrev pub Reads : Bytes → ℕ → Bytes → Type 0
Reads p off bs = (rest : Bytes) × (drop off p ≡ bs ++ rest)

offset-le :
    (n pos i off : ℕ) (bs : Bytes) (ws : Writes)
    → IsAscending n pos ws
    → get_elem? ws i ≡ some (off, bs)
    → off ≤ n
offset-le n pos i off bs [] h e = absurd (cc)
offset-le n pos zero off bs ((o, b) ∷ ws) h e =
    let eo : o ≡ off = cc in omega (arith, eo, IsAscending-le n (o + length b) ws h.1)
offset-le n pos (suc i) off bs ((o, b) ∷ ws) h e = offset-le n (o + length b) i off bs ws h.1 e

-- What was written at an offset stands there in the end.
pub drop-fill :
    (n i off : ℕ) (bs : Bytes) (ws : Writes)
    → IsAscending n 0 ws
    → get_elem? ws i ≡ some (off, bs)
    → Reads (fill n ws) off bs
drop-fill n i off bs ws h e =
    let (_, rest, p) = drop-layout n 0 i off bs ws h e in
    (rest, rw (fill-layout n ws h) (ap (λ (k : ℕ). drop k (layout n 0 ws)) (omega arith) ∙ p))

-- The same of a buffer that is a block of a larger one.
pub drop-fill_block :
    (n i off : ℕ) (bs : Bytes) (ws : Writes) (tail : Bytes)
    → IsAscending n 0 ws
    → get_elem? ws i ≡ some (off, bs)
    → Reads (fill n ws ++ tail) off bs
drop-fill_block n i off bs ws tail h e =
    let (rest, p) = drop-fill n i off bs ws h e in
    (
      rest ++ tail,
      drop-append_le off (fill n ws) tail
            (omega (arith, offset-le n 0 i off bs ws h e, length-fill n ws h))
          ∙ ap (λ (b : Bytes). b ++ tail) p
          ∙ append_assoc bs rest tail,
    )

pub take-Reads :
    (p : Bytes) (off len : ℕ) (bs : Bytes)
    → Reads p off bs
    → length bs ≡ len
    → take len (drop off p) ≡ bs
take-Reads p off len bs (rest, e) size = rw e (take-append len bs rest size)

-- So a copy out of the buffer is what was copied in.
pub take-drop-fill_len :
    (n i off len : ℕ) (bs : Bytes) (ws : Writes)
    → IsAscending n 0 ws
    → get_elem? ws i ≡ some (off, bs)
    → length bs ≡ len
    → take len (drop off (fill n ws)) ≡ bs
take-drop-fill_len n i off len bs ws h e size =
    let (rest, p) = drop-fill n i off bs ws h e in rw p (take-append len bs rest size)
