-- ===== src/Meas.antt =====
-- Measurement reports of an lchan (src/osmo-bsc/meas_rep.c and the ring of reports that
-- src/osmo-bsc/abis_rsl.c fills) and the neighbour measurements and decisions of handover
-- algorithm 1 (src/osmo-bsc/handover_decision.c).
pub mod Ring
pub mod Report
pub mod Neigh
pub mod Hodec1
