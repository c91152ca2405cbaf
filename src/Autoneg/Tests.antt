-- ===== src/Autoneg/Tests.antt =====
-- Autonegotiation between two sample ports.
use ss_sbl.Prelude.{
  ℕ, zero, suc, ◌+◌, ◌≡◌, ◌⊎◌, refl, true, false, none, some, List, [], ◌∷◌, drop, replicate, arith,
  test_bit,
}
use ss_sbl.Link.{Link, Autoneg}
use ss_sbl.Link.Consts.{enoent, etime, an_mode_fixed, mode_bj_100g}
use ss_sbl.Kernel.{tick_1000}
use ss_sbl.Fec.Thresholds.{Platform}
use ss_sbl.Samples.{link_down, edge_200g, idle_an}
use ss_sbl.Autoneg.{
  setup_pages, ability_match, resolve_mode, read_pages, fixup_100cr4, common_from, ability_base,
  bit_100g_cr4, bit_100g_kr4, offers_llr, offers_ether, offers_hpc,
}
use ss_sbl.Autoneg.Exchange.{
  Round, AllNext, Filled, page_exchange, page_exchange-Filled, page_exchange_ends, has_ended,
}
use ss_sbl.Autoneg.Resolve.{ends_agree, fixup_100cr4_match}
use ss_sbl.Autoneg.Pages.{next_pages_understood, subtype_of, Options}
use ss_sbl.Autoneg.Negotiate.{Attempt, negotiate}
use ss_sbl.Autoneg.Outcome.{Ends, negotiate-Ends}
use ss_sbl.Media.{debug_option}
use ss_sbl.Autoneg.Retry.{gave_up, TimesOut, negotiate_gives_up}

-- A partner that announces one page after the other.
abbrev endless : Round
endless = record {
  cancelled = false;
  timed_out = false;
  prepare = 0;
  in_time = true;
  is_next = true;
  page = 32768;
  complete = false;
}

abbrev rounds : List Round
rounds = replicate 19 endless

-- The base page, nineteen places, and two words of memory behind the buffer
abbrev base_received : Autoneg
base_received = record idle_an { rx_page = 32768 ∷ replicate 21 0; rx_count = 1 }

endless-AllNext : (n : ℕ) → AllNext (replicate n endless)
endless-AllNext zero = tt
endless-AllNext (suc n) = (refl, endless-AllNext n)

page_exchange-Filled_example : Filled 1 base_received (page_exchange rounds 1 base_received)
page_exchange-Filled_example = page_exchange-Filled rounds 1 base_received (omega arith)

page_exchange_ends_example : has_ended (page_exchange rounds 1 base_received) ≡ true
page_exchange_ends_example =
    page_exchange_ends rounds 1 base_received (omega arith) (omega arith) (endless-AllNext 19)

abbrev with_pages : ℕ → ℕ → Link
with_pages tx rx = record link_down {
  an = record idle_an { tx_page = tx ∷ []; rx_page = rx ∷ []; rx_count = 1 };
}

ends_agree_example :
    (((ability_match true (with_pages 7 9)).1 ≡ enoent)
      × ((ability_match true (with_pages 9 7)).1 ≡ enoent))
    ⊎ (((ability_match true (with_pages 7 9)).1 ≡ 0)
        × ((ability_match true (with_pages 9 7)).1 ≡ 0)
        × ((ability_match true (with_pages 7 9)).0.link_mode
            ≡ (ability_match true (with_pages 9 7)).0.link_mode))
ends_agree_example = ends_agree (with_pages 7 9) (with_pages 9 7) refl refl

-- This port offers CR4, and its partner KR4.
fixup_100cr4_match_example :
    (((fixup_100cr4 536870912 268435456).1 ≡ true)
      × (common_from 21 ability_base 536870912 268435456 ≡ false)
      × (test_bit bit_100g_cr4 536870912 ≡ true)
      × (test_bit bit_100g_kr4 268435456 ≡ true)
      × (resolve_mode 536870912 (fixup_100cr4 536870912 268435456).0 ≡ some mode_bj_100g))
    ⊎ (((fixup_100cr4 536870912 268435456).1 ≡ false)
        × ((fixup_100cr4 536870912 268435456).0 ≡ 268435456)
        × ((common_from 21 ability_base 536870912 268435456 ≡ true)
            ⊎ (test_bit bit_100g_cr4 536870912 ≡ false)
            ⊎ (test_bit bit_100g_kr4 268435456 ≡ false)))
fixup_100cr4_match_example = fixup_100cr4_match 536870912 268435456

abbrev link_fixed : Link
link_fixed = record link_down { blattr = record edge_200g { an_mode = an_mode_fixed } }

next_pages_understood_example :
    ((read_pages
        (drop 1 (setup_pages Platform.cassini none link_down).0.an.tx_page)
        0
        false
        link_down).lp_subtype
      ≡ subtype_of Platform.cassini + 1)
    × Options
        (read_pages
          (drop 1 (setup_pages Platform.cassini none link_down).0.an.tx_page)
          0
          false
          link_down).an.options
        (offers_llr link_down)
        (offers_ether link_down)
        (offers_hpc link_down)
        link_down
unfolding test_bit debug_option
next_pages_understood_example =
    next_pages_understood Platform.cassini none link_down link_down refl refl

-- An attempt to which no partner answers.
abbrev silent : Attempt
silent = record {
  timed_out = false;
  cancelled = false;
  serdes_start = λ l. (l, 0);
  pml_setup = λ l. (l, 0);
  exchange = λ l. (l, etime);
  serdes_stop = λ l. l;
  jiffies = 0;
}

silent-TimesOut : TimesOut silent
silent-TimesOut = record {
  exchange_err = λ l. refl;
  exchange_tries = λ l. refl;
  start_tries = λ l. refl;
  setup_tries = λ l. refl;
  stop_tries = λ l. refl;
}

negotiate-Ends_example : Ends (negotiate tick_1000 true (silent ∷ []) link_down)
negotiate-Ends_example = negotiate-Ends tick_1000 true (silent ∷ []) link_down

negotiate_gives_up_example :
    gave_up (negotiate tick_1000 true (silent ∷ silent ∷ silent ∷ []) link_down) ≡ true
negotiate_gives_up_example =
    negotiate_gives_up tick_1000 true silent (silent ∷ silent ∷ []) link_down
      (silent-TimesOut, (silent-TimesOut, (silent-TimesOut, tt))) (omega arith)
