-- ===== src/Autoneg/Exchange.antt =====
-- The exchange of next pages: sbl_an_page_exchange of nic/sbl_link_an_nic.c.
use ss_sbl.Prelude.{
  ℕ, ◌+◌, ◌-◌, ◌≡◌, ◌≤◌, ◌<◌, inl, inr, refl, ◌∙◌, Bool, true, false, Bool-cases, not, Option, none,
  some, List, [], ◌∷◌, if◌then◌else◌, ◌==◌, leb, test_bit, get_or, set, length, get_elem?,
  get_elem?-set_ne, arith, if_rec,
}
use ss_sbl.Link.{Autoneg}
use ss_sbl.Link.Consts.{ecanceled, etimedout, etime, eproto}
use ss_sbl.Autoneg.{bit_np}

abbrev pub max_rx_pages : ℕ
max_rx_pages = 20

-- What one round of the loop finds: whether the start was cancelled or has timed out, the result of
-- sbl_an_hw_wait_prepare, whether the page interrupt came in time, whether it told of a next page, the
-- page, and whether the exchange is complete.
pub record Round : Type 0 where
  pub cancelled : Bool
  pub timed_out : Bool
  pub prepare : ℕ
  pub in_time : Bool
  pub is_next : Bool
  pub page : ℕ
  pub complete : Bool

-- The received page is put in the buffer where the one before it announced it. `rx_page` is the memory
-- from the buffer on: an index of twenty or more writes behind the buffer.
unfoldable pub put_page : ℕ → ℕ → Autoneg → Autoneg
put_page xcng_count page a =
    if test_bit bit_np (get_or a.rx_page (xcng_count - 1) 0)
    then record a { rx_page = set a.rx_page xcng_count page; rx_count = a.rx_count + 1 }
    else a

-- The loop, with what its rounds find. `none`: these rounds are over, and it goes on. A round without a
-- next page goes straight to the test at the end, as `continue` does in a `do` loop.
unfoldable pub page_exchange : List Round → ℕ → Autoneg → Option (Autoneg × ℕ)
unfolding put_page
page_exchange [] xcng_count a = none
page_exchange (r ∷ rs) xcng_count a =
    let a' = put_page xcng_count r.page a in
    if r.cancelled
    then some (a, ecanceled)
    else if r.timed_out
    then some (a, etimedout)
    else if not (r.prepare == 0)
    then some (a, r.prepare)
    else if not r.in_time
    then some (a, etime)
    else if not r.is_next
    then (if r.complete then some (a, 0) else page_exchange rs xcng_count a)
    else if leb max_rx_pages (xcng_count + 1)
    then some (a', eproto)
    else if r.complete
    then some (a', 0)
    else page_exchange rs (xcng_count + 1) a'

-- What the exchange may do to the memory from the buffer on, which holds the twenty pages of the buffer
-- and what stands behind them: the pages from the twentieth on, and those before `first`, stay as they are.
pub record Within (first : ℕ) (a a' : Autoneg) : Type 0 where
  pub beyond : (i : ℕ) → max_rx_pages ≤ i → get_elem? a'.rx_page i ≡ get_elem? a.rx_page i
  pub before : (i : ℕ) → i < first → get_elem? a'.rx_page i ≡ get_elem? a.rx_page i
  pub counted : a'.rx_count - a.rx_count ≤ max_rx_pages - first
  pub grows : a.rx_count ≤ a'.rx_count

same-Within : (x : ℕ) (a : Autoneg) → Within x a a
same-Within x a = record {
  beyond = λ i h. refl;
  before = λ i h. refl;
  counted = omega arith;
  grows = omega arith;
}

-- What comes after one page is put at the place x.
put_page-Within :
    (x page : ℕ) (a a' : Autoneg)
    → x < max_rx_pages
    → Within (x + 1) (put_page x page a) a'
    → Within x a a'
unfolding put_page
put_page-Within x page a a' h =
    if_rec (λ (r : Autoneg). Within (x + 1) r a' → Within x a a')
      (test_bit bit_np (get_or a.rx_page (x - 1) 0))
      (λ w. record {
        beyond = λ i g. w.beyond i g ∙ get_elem?-set_ne a.rx_page page (λ e. absurd (omega arith));
        before = λ i g.
            w.before i (omega arith) ∙ get_elem?-set_ne a.rx_page page (λ e. absurd (omega arith));
        counted = omega (arith, w.counted, w.grows);
        grows = omega (arith, w.grows);
      })
      (λ w. record {
        beyond = w.beyond;
        before = λ i g. w.before i (omega arith);
        counted = omega (arith, w.counted);
        grows = w.grows;
      })

-- How an exchange leaves the memory, where it has ended.
pub data Filled (first : ℕ) (a : Autoneg) : Option (Autoneg × ℕ) → Type 0 where
  goes_on : Filled first a none
  ended : (a' : Autoneg) (err : ℕ) → Within first a a' → Filled first a (some (a', err))

put_page-Filled :
    (x page : ℕ) (a : Autoneg) {r : Option (Autoneg × ℕ)}
    → x < max_rx_pages
    → Filled (x + 1) (put_page x page a) r
    → Filled x a r
put_page-Filled x page a h Filled.goes_on = Filled.goes_on
put_page-Filled x page a h (Filled.ended a' err w) =
    Filled.ended a' err (put_page-Within x page a a' h w)

-- However the partner behaves, and however many pages it sends, an exchange that begins at a place of the
-- buffer writes only at the places from there to the end of the buffer of twenty pages: where it ends,
-- the pages before, and all the memory behind the buffer, are as they were, and the number of pages
-- received has grown by at most the number of these places.
pub page_exchange-Filled :
    (rs : List Round) (xcng_count : ℕ) (a : Autoneg)
    → xcng_count < max_rx_pages
    → Filled xcng_count a (page_exchange rs xcng_count a)
unfolding page_exchange
page_exchange-Filled [] x a h = Filled.goes_on
page_exchange-Filled (r ∷ rs) x a h =
    let a' = put_page x r.page a in
    let stays : (err : ℕ) → Filled x a (some (a, err)) =
      λ err. Filled.ended a err (same-Within x a) in
    let put : (err : ℕ) → Filled x a (some (a', err)) =
      λ err. put_page-Filled x r.page a h (Filled.ended a' err (same-Within (x + 1) a')) in
    if_rec (Filled x a) r.cancelled (stays _) (
      if_rec (Filled x a) r.timed_out (stays _) (
        if_rec (Filled x a) (not (r.prepare == 0)) (stays _) (
          if_rec (Filled x a) (not r.in_time) (stays _) (
            if_rec (Filled x a) (not r.is_next)
              (if_rec (Filled x a) r.complete (stays _) (page_exchange-Filled rs x a h))
              (elim (Bool-cases (leb max_rx_pages (x + 1))) [
                | inl full ↦ rw full (put _)
                | inr room ↦ rw room (
                    if_rec (Filled x a) r.complete (put _) (
                      put_page-Filled x r.page a h
                        (page_exchange-Filled rs (x + 1) a' (ground arith))))
              ])))))

abbrev pub has_ended : Option (Autoneg × ℕ) → Bool
has_ended none = false
has_ended (some r) = true

-- Every round gets a next page.
abbrev pub AllNext : List Round → Type 0
AllNext [] = Unit
AllNext (r ∷ rs) = (r.is_next ≡ true) × AllNext rs

-- The exchange ends, with success or with an error, after at most nineteen rounds in which a next page
-- is received, even with a partner that always announces another page and never completes.
pub page_exchange_ends :
    (rs : List Round) (xcng_count : ℕ) (a : Autoneg)
    → xcng_count < max_rx_pages
    → max_rx_pages ≤ xcng_count + length rs
    → AllNext rs
    → has_ended (page_exchange rs xcng_count a) ≡ true
unfolding page_exchange
page_exchange_ends [] x a h enough all = absurd (omega arith)
page_exchange_ends (r ∷ rs) x a h enough all =
    let a' = put_page x r.page a in
    let E : Option (Autoneg × ℕ) → Type 0 = λ o. has_ended o ≡ true in
    if_rec E r.cancelled refl (
      if_rec E r.timed_out refl (
        if_rec E (not (r.prepare == 0)) refl (
          if_rec E (not r.in_time) refl (
            rw (all.0) (elim (Bool-cases (leb max_rx_pages (x + 1))) [
              | inl full ↦ rw full refl
              | inr room ↦ rw room (
                  if_rec E r.complete refl
                    (page_exchange_ends rs (x + 1) a' (ground arith) (omega arith) all.1))
            ])))))
