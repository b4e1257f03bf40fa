-- ===== src/Zns.antt =====
-- The zoned namespace: zones, their states and write pointers, and the device's zone resources
-- (zns_ftl.c, zns_ftl.h, zns_mgmt_send.c, zns_read_write.c; the buffers are those of ssd.c).
pub mod Zone
pub mod Manage
pub mod Write
pub mod Device
