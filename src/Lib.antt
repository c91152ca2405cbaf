-- ===== src/Lib.antt =====
-- Slingshot Base Link: the driver library under drivers/net/ethernet/hpe/sbl that brings the ethernet
-- ports of a Slingshot NIC or switch up and down, configures their media, and watches a link's forward
-- error correction (FEC) counters while it is up.
--
-- The parts, and the files that model them:
--
--   Link             the link database: struct sbl_link, struct sbl_inst and the attribute structures
--                    (sbl_internal.h, include/linux/hpe/sbl/*.h, include/uapi/ethernet/sbl-abi.h), the
--                    constants (Link/Consts), and the two validations that every entry point begins with
--                    (Link/Port). An operation is modelled on the link record of its port; `on_port`
--                    lifts it to the instance.
--   Kernel           the kernel's clocks: a record of functions with the laws that the code relies on.
--   Timers           sbl_timers.c: the start timeout in jiffies, the times of start, up and tuning.
--   Counters         sbl_counters.c: the event counters of a link.
--   Media            sbl_media.c: the cable, what it supports, its length and its loop time.
--   Fec              sbl_fec.c with nic/sbl_fec_nic.c and sw/sbl_fec_sw.c: Thresholds, Rates, Checks (the
--                    tests of a rate), Settings, and Monitor (sbl_fec_up_check, and sbl_fec_timer_work
--                    with sbl_pml_link_down_async_alert of sbl_pml.c). What is shown of them is in
--                    Alarms, UpCheck, Work and Frame.
--   BaseLink         sbl_link.c: Status (configuration, flags, status), FaultMonitor, Detect (firmware
--                    check, link mode, link partner), Start (sbl_base_link_start with its labels) and
--                    Stop (sbl_base_link_stop, sbl_base_link_reset, sbl_base_link_try_start_fail_cleanup,
--                    sbl_base_link_cancel_start). How they end is shown in Frame, Steps, Stages, Outcome,
--                    Halt, Recover and Mutex; Lifecycle puts the operations on a port together, as a state
--                    machine (Moves) and in sequence (Traces).
--   Debug            sbl_debug.c: the debug flags, one atomic word that several threads update.
--   Pml              sbl_pml*.c, the PML block of a port. Regs names the registers and fields; Mac, Lanes,
--                    Pcs, PcsConfig and PcsWait are the MAC and the PCS with its waits; Llr, LlrMode and
--                    LlrStart the link-level retry; Bringup has sbl_pml_start, sbl_pml_link_down and
--                    sbl_pml_set_defaults; Intr and Handler the interrupts, Recovery the monitor that gives
--                    a fault time to go away; SerdesOp is sbl_pml_serdes_op. What is shown of them is in
--                    the modules below each.
--   Serdes           Configs: the list of serdes configurations (sbl_serdes.c) and the choice of one for a
--                    serdes (sbl_serdes_fn.c). Lifecycle: sbl_serdes_start, sbl_serdes_stop,
--                    sbl_serdes_reset, sbl_an_serdes_start and sbl_an_serdes_stop, and the saved tuning
--                    parameters; its Minitune has sbl_serdes_minitune_block (sbl_serdes_fn.c), and its
--                    Detect sbl_serdes_lp_detect and sbl_serdes_load. What is shown of them is in Choice,
--                    Unique, Settled, Minitune/Ends and Detect.
--   Autoneg          sbl_link_an.c and nic/sbl_link_an_nic.c: the pages sent, the match of the abilities and
--                    the fixup; Negotiate has the loop of sbl_link_autoneg, and Exchange that of
--                    sbl_an_page_exchange. What is shown of them is in Pages, Resolve, Outcome, Retry and
--                    Exchange.
--   Samples          data for the tests, which stand in the Tests module of each part.
--
-- How they interact: sbl_base_link_start checks the media, sets the timers, sets and checks the FEC
-- parameters, and sets the timer of the FEC work, whose alert may put the link in the state ERROR.
--
-- State. An operation is a function on the link record, or, in BaseLink, on a World: the hardware, the
-- link record and the log of calls. The functions of the serdes, the PML block, autonegotiation and the
-- firmware that sbl_link.c calls are one parameter, `ops`, with a constructor of `Call` for each; a call
-- may change the hardware and the link record and returns a number. The law asked of them, `Framed`, is
-- that they do not set blstate, blerr, blconfigured or debug_config. A `goto` label is a function that
-- takes the error, and `attempt` is the test of an error before the next stage.
-- In Pml an operation is a function on the hardware, the link record and the events it causes (the type P
-- of Pml.antt). The hardware is a state of any type, which the callbacks sbl_read64 and sbl_write64 of the
-- record Board change, and the macros of the generated register header are the record Header. Laws of
-- them are asked only by KeepsMac (Pml/Bringup/Failure): the two configuration registers of the MAC keep
-- what is written to them, and a field that is set to zero reads as zero. The clock is a function of the hardware's state, since it goes on between two reads.
-- The start, the stop, the reset and the cleanup hold the link's busy mutex from beginning to end and do
-- not interleave with each other. In BaseLink/Lifecycle every operation, and every run of the FEC work,
-- is one step; what happens when another operation comes in the middle of a step is not modelled.
--
-- Numbers. u32 and u64 arithmetic has its wrap-around written out; an error is the magnitude of the
-- negative errno. Jiffies and times in nanoseconds are natural numbers, reduced where C reduces them.
--
-- Loops. The loops over the serdes, the lanes, the FEC windows and the cases of a switch are structural
-- recursion on the number of rounds or the list. The two loops of autonegotiation go on as long as the
-- partner does: they are recursion on a list of what their rounds find, with no result while the list is
-- too short.
--
-- The waits of Pml and Serdes are recursion on fuel, with no result when it is over. They end by a
-- deadline, for a clock that runs: RunsOut (Pml/Waiting) bounds the reads of registers until the start
-- timeout, Elapses (Serdes/Lifecycle/Settled) the pauses of the wait for the optics, and TimePasses
-- (Serdes/Lifecycle/Minitune/Ends) the pauses and the calls of the quick tuning until the start timeout;
-- this last one also asks that an operation of the serdes processors gives no -ETIME, which is not
-- among the errors of sbl_pml_serdes_op. Twice the bound and two more is enough for the
-- waits of the PCS, one more than the bound for the others. For the wait for the lanes, and for the LLR and
-- its detection, no bound is given.
--
-- In Serdes/Lifecycle the other functions of sbl_serdes_fn.c that are called have a constructor of SerdesCall
-- each; they may change the hardware and the link, and give a result.
--
-- A buffer whose bounds matter, link->an_rx_page, is the memory from its first page on, so that a write
-- behind it is seen.
--
-- Not modelled: the tuning of the serdes other than the wait above, their firmware, the base page exchange of
-- sbl_an_exchange and the switch's exchange of next pages, the creation of an instance, the module
-- glue, printing and the sysfs files, and spin locks. BaseLink still takes the functions of Pml and Serdes
-- as its parameter `ops`.
pub mod Prelude
pub mod Link
pub mod Kernel
pub mod Timers
pub mod Counters
pub mod Media
pub mod Debug
pub mod Serdes
pub mod Pml
pub mod Fec
pub mod BaseLink
pub mod Autoneg
pub mod Samples
