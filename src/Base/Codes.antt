-- ===== src/Base/Codes.antt =====
-- include/nos_types.h: the status codes that the operations return.

-- `nos_status_t`
pub data Status : Type 0 where
  ok err err_nomem err_not_found err_busy err_timeout : Status
