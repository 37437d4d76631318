-- ===== src/Transfer/Disk/Places.antt =====
-- What each place of the file holds after a write.
use p2pfile_transfer.Common.{
  ℕ, zero, suc, ◌+◌, ◌≤◌, ◌<◌, ◌≡◌, refl, List, [], ◌∷◌, length, get_elem?, arith, max, some,
}
use p2pfile_transfer.Transfer.Disk.{overlay, seek_write, write_at}

length-overlay : (bytes old : List ℕ) → length (overlay bytes old) ≡ max (length bytes) (length old)
unfolding overlay
length-overlay [] old = omega arith
length-overlay (b ∷ bytes) [] = omega arith
length-overlay (b ∷ bytes) (o ∷ old) = omega (arith, length-overlay bytes old)

length-seek_write :
    (offset : ℕ) (bytes old : List ℕ)
    → length (seek_write offset bytes old) ≤ max (offset + length bytes) (length old)
unfolding seek_write
length-seek_write zero bytes old = omega (arith, length-overlay bytes old)
length-seek_write (suc n) bytes [] = omega (arith, length-seek_write n bytes [])
length-seek_write (suc n) bytes (o ∷ old) = omega (arith, length-seek_write n bytes old)

overlay_inside :
    (bytes old : List ℕ) (i : ℕ)
    → i < length bytes
    → get_elem? (overlay bytes old) i ≡ get_elem? bytes i
unfolding overlay
overlay_inside [] old i h = absurd (omega arith)
overlay_inside (b ∷ bytes) [] i h = refl
overlay_inside (b ∷ bytes) (o ∷ old) zero h = refl
overlay_inside (b ∷ bytes) (o ∷ old) (suc i) h = overlay_inside bytes old i (omega arith)

overlay_behind :
    (bytes old : List ℕ) (i : ℕ) {a : ℕ}
    → length bytes ≤ i
    → get_elem? old i ≡ some a
    → get_elem? (overlay bytes old) i ≡ some a
unfolding overlay
overlay_behind [] old i h e = e
overlay_behind (b ∷ bytes) [] i h e = cc
overlay_behind (b ∷ bytes) (o ∷ old) zero h e = absurd (omega arith)
overlay_behind (b ∷ bytes) (o ∷ old) (suc i) h e = overlay_behind bytes old i (omega arith) e

seek_write_inside :
    (offset : ℕ) (bytes old : List ℕ) (i : ℕ)
    → i < length bytes
    → get_elem? (seek_write offset bytes old) (offset + i) ≡ get_elem? bytes i
unfolding seek_write
seek_write_inside zero bytes old i h =
    let e : zero + i ≡ i = omega arith in rw e (overlay_inside bytes old i h)
seek_write_inside (suc n) bytes [] i h =
    let e : suc n + i ≡ suc (n + i) = omega arith in rw e (seek_write_inside n bytes [] i h)
seek_write_inside (suc n) bytes (o ∷ old) i h =
    let e : suc n + i ≡ suc (n + i) = omega arith in rw e (seek_write_inside n bytes old i h)

seek_write_before :
    (offset : ℕ) (bytes old : List ℕ) (i : ℕ) {a : ℕ}
    → i < offset
    → get_elem? old i ≡ some a
    → get_elem? (seek_write offset bytes old) i ≡ some a
unfolding seek_write
seek_write_before zero bytes old i h e = absurd (omega arith)
seek_write_before (suc n) bytes [] i h e = cc
seek_write_before (suc n) bytes (o ∷ old) zero h e = e
seek_write_before (suc n) bytes (o ∷ old) (suc i) h e =
    seek_write_before n bytes old i (omega arith) e

seek_write_behind :
    (offset : ℕ) (bytes old : List ℕ) (i : ℕ) {a : ℕ}
    → offset + length bytes ≤ i
    → get_elem? old i ≡ some a
    → get_elem? (seek_write offset bytes old) i ≡ some a
unfolding seek_write
seek_write_behind zero bytes old i h e = overlay_behind bytes old i (omega arith) e
seek_write_behind (suc n) bytes [] i h e = cc
seek_write_behind (suc n) bytes (o ∷ old) zero h e = absurd (omega arith)
seek_write_behind (suc n) bytes (o ∷ old) (suc i) h e =
    seek_write_behind n bytes old i (omega arith) e

-- The file grows at most to the end of the write.
pub length-write_at :
    (offset : ℕ) (bytes old : List ℕ)
    → length (write_at offset bytes old) ≤ max (offset + length bytes) (length old)
unfolding write_at
length-write_at offset [] old = omega arith
length-write_at offset (b ∷ bytes) old = length-seek_write offset (b ∷ bytes) old

-- The written bytes stand at their offset.
pub write_at_inside :
    (offset : ℕ) (bytes old : List ℕ) (i : ℕ)
    → i < length bytes
    → get_elem? (write_at offset bytes old) (offset + i) ≡ get_elem? bytes i
unfolding write_at
write_at_inside offset [] old i h = absurd (omega arith)
write_at_inside offset (b ∷ bytes) old i h = seek_write_inside offset (b ∷ bytes) old i h

-- What stood before or behind them stays.
pub write_at_before :
    (offset : ℕ) (bytes old : List ℕ) (i : ℕ) {a : ℕ}
    → i < offset
    → get_elem? old i ≡ some a
    → get_elem? (write_at offset bytes old) i ≡ some a
unfolding write_at
write_at_before offset [] old i h e = e
write_at_before offset (b ∷ bytes) old i h e = seek_write_before offset (b ∷ bytes) old i h e

pub write_at_behind :
    (offset : ℕ) (bytes old : List ℕ) (i : ℕ) {a : ℕ}
    → offset + length bytes ≤ i
    → get_elem? old i ≡ some a
    → get_elem? (write_at offset bytes old) i ≡ some a
unfolding write_at
write_at_behind offset [] old i h e = e
write_at_behind offset (b ∷ bytes) old i h e = seek_write_behind offset (b ∷ bytes) old i h e
