-- ===== src/Counters/Access.antt =====
-- What the reads and increments of sbl_counters.c give.
use ss_sbl.Prelude.{
  ℕ, zero, suc, ◌+◌, ◌≤◌, ◌<◌, ◌≡◌, refl, Bool, ◌&&◌, List, [], ◌∷◌, arith, if◌then◌else◌, ltb, leb,
  ◌==◌, length, take, drop, get_or, length-set, get_or-set_self, get_or-set_ne,
}
use native.Mathlib.Numerals.{add-one}
use ss_sbl.Link.{Link}
use ss_sbl.Link.Consts.{num_counters, einval}
use ss_sbl.Kernel.{u32}
use ss_sbl.Counters.{read_block, counters_get, counters_read, counters_incr}

-- A step of the loop moves the window by one.
drop-get_or : (xs : List ℕ) (i : ℕ) → i < length xs → drop i xs ≡ get_or xs i 0 ∷ drop (suc i) xs
drop-get_or [] i h = elim h [ ]
drop-get_or (x ∷ xs) zero h = refl
drop-get_or (x ∷ xs) (suc i) h = drop-get_or xs i (omega arith)

read_block-take :
    (n first : ℕ) (xs : List ℕ)
    → first + n ≤ length xs
    → read_block n first xs ≡ take n (drop first xs)
unfolding read_block
read_block-take zero first xs h = refl
read_block-take (suc n) first xs h =
    rw (read_block-take n (first + 1) xs (omega arith), drop-get_or xs first (omega arith), add-one)

-- Of a full array sbl_link_counters_get delivers the `count` counters from `first` on exactly when
-- the caller gives a buffer and the block ends within the array; otherwise it returns -EINVAL and
-- delivers nothing. The link is unchanged.
pub counters_get_block :
    (buffer : Bool) (first count : ℕ) (l : Link)
    → length l.counters ≡ num_counters
    → counters_get buffer first count l ≡ (
        if buffer && leb (first + count) num_counters
        then (l, (0, take count (drop first l.counters)))
        else (l, (einval, [])))
unfolding counters_get
counters_get_block buffer first count l h = ground (arith, read_block-take count first l.counters)

-- Of a full array an increment adds one, modulo 2^32, to the counter that it names and to no other,
-- returns 0, and keeps the array full; a number that names no counter is refused with -EINVAL and
-- changes no counter.
pub counters_read-incr :
    (c d : ℕ) (l : Link)
    → length l.counters ≡ num_counters
    → (counters_read d (counters_incr c l).0 ≡ (
        if (c == d) && ltb c num_counters then u32 (counters_read d l + 1) else counters_read d l))
      × ((counters_incr c l).1 ≡ (if ltb c num_counters then 0 else einval))
      × (length (counters_incr c l).0.counters ≡ num_counters)
unfolding counters_read counters_incr
counters_read-incr c d l h = ground (
  arith,
  length-set l.counters c (u32 (get_or l.counters c 0 + 1)),
  get_or-set_self l.counters c (u32 (get_or l.counters c 0 + 1)) 0,
  get_or-set_ne l.counters {i = c} {j = d} (u32 (get_or l.counters c 0 + 1)) 0,
)
