-- ===== src/Chan.antt =====
-- Channels of a BTS: kinds of physical and logical channels (src/osmo-bsc/gsm_data.c), the state of
-- timeslots and lchans (include/osmocom/bsc/gsm_data.h), what a timeslot may serve
-- (src/osmo-bsc/timeslot_fsm.c), channel selection (src/osmo-bsc/lchan_select.c) and channel load
-- (src/osmo-bsc/chan_alloc.c).
pub mod Types
pub mod Kinds
pub mod Usable
pub mod Select
