-- ===== src/Serdes.antt =====
-- The serdes of a port, as far as they are modelled: drivers/net/ethernet/hpe/sbl/sbl_serdes.c and parts of
-- sbl_serdes_fn.c.
pub mod Configs
pub mod Lifecycle
