-- ===== src/Counters.antt =====
-- The event counters of a link: drivers/net/ethernet/hpe/sbl/sbl_counters.c. A counter is an
-- `atomic_t`, read here as its 32-bit pattern. Link.counters is the array that
-- sbl_link_counters_init has allocated.
pub mod Access
use ss_sbl.Prelude.{
  ℕ, zero, suc, ◌+◌, Bool, List, [], ◌∷◌, Option, none, some, ℤ, if◌then◌else◌, ltb, leb, get_or,
  set, replicate, not,
}
use ss_sbl.Link.{Link, Inst}
use ss_sbl.Link.Consts.{einval, enomem, num_counters}
use ss_sbl.Link.Port.{on_port}
use ss_sbl.Kernel.{u32}

-- sbl_link_counters_init. `fresh` is what kzalloc gives, `none` where it fails; an array that is
-- there already is kept. Then every counter is set to zero.
unfoldable pub link_counters_init : Option (List ℕ) → Option (List ℕ) → ℕ × Option (List ℕ)
link_counters_init (some counters) fresh = (0, some (replicate num_counters 0))
link_counters_init none none = (enomem, none)
link_counters_init none (some fresh) = (0, some (replicate num_counters 0))

-- sbl_link_counters_term
unfoldable pub link_counters_term : Option (List ℕ) → Option (List ℕ)
link_counters_term counters = none

-- The loop of sbl_link_counters_get: `n` counters from index `first` on.
unfoldable pub read_block : ℕ → ℕ → List ℕ → List ℕ
read_block zero first counters = []
read_block (suc n) first counters = get_or counters first 0 ∷ read_block n (first + 1) counters

-- The part of sbl_link_counters_get behind the validations; `buffer` tells that the caller's pointer
-- is not null. The sum of two `u16` is an `int` and does not wrap.
unfoldable pub counters_get : Bool → ℕ → ℕ → Link → Link × (ℕ × List ℕ)
unfolding read_block
counters_get buffer first count l =
    if ltb num_counters (first + count)
    then (l, (einval, []))
    else if not buffer
    then (l, (einval, []))
    else (l, (0, read_block count first l.counters))

-- sbl_link_counters_get
unfoldable pub link_counters_get : Option Inst → ℤ → Bool → ℕ → ℕ → Option Inst × (ℕ × List ℕ)
unfolding counters_get on_port
link_counters_get sbl port buffer first count =
    on_port sbl port (λ e. (einval, [])) (counters_get buffer first count)

-- The part of sbl_link_counters_read behind the validations.
unfoldable pub counters_read : ℕ → Link → ℕ
counters_read counter l = if leb num_counters counter then 0 else get_or l.counters counter 0

-- sbl_link_counters_read
unfoldable pub link_counters_read : Option Inst → ℤ → ℕ → Option Inst × ℕ
unfolding counters_read on_port
link_counters_read sbl port counter = on_port sbl port (λ e. 0) (λ l. (l, counters_read counter l))

-- The part of sbl_link_counters_incr behind the validations.
unfoldable pub counters_incr : ℕ → Link → Link × ℕ
counters_incr counter l =
    if leb num_counters counter
    then (l, einval)
    else (record l { counters = set l.counters counter (u32 (get_or l.counters counter 0 + 1)) }, 0)

-- sbl_link_counters_incr
unfoldable pub link_counters_incr : Option Inst → ℤ → ℕ → Option Inst × ℕ
unfolding counters_incr on_port
link_counters_incr sbl port counter = on_port sbl port (λ e. einval) (counters_incr counter)
