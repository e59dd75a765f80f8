-- ===== src/Fm/Errors/Codes.antt =====
-- src/FM/pkg/errors/codes.go: the codes of errors. A code is a string; one that the catalogue does not
-- list is `unlisted`, and one that it lists is its constructor.
use dash_fabric.Base.{Bytes, bytes}

pub data Code : Type 0 where
  api_001_bad_request api_002_auth_failed api_003_not_found api_004_conflict api_005_rate_limited
        api_006_admission_rejected api_007_shard_not_owned api_008_timeout reg_001_key_not_found
        reg_002_watch_lost reg_003_watch_failed reg_004_acquire_timeout reg_005_assembler_incomplete
        reg_006_value_decode_failed reg_007_refcount_underflow reg_008_cache_oom
        act_001_parent_not_ready act_002_inputs_not_ready act_003_compose_failed
        act_004_mailbox_dropped act_005_panic_recovered act_006_repeated_panic
        act_007_state_invariant_broken act_008_deadline_exceeded drv_001_connection_lost
        drv_002_timeout drv_003_invalid_payload drv_004_resource_exhausted drv_005_version_mismatch
        drv_006_partial_apply drv_007_device_rejected drv_008_permanent_failure
        drv_009_capability_missing drv_010_hash_mismatch adp_001_lease_lost adp_002_cas_conflict
        adp_003_schema_rejected adp_004_unknown_event_type adp_005_t1_unreachable
        adp_006_t2_unreachable adp_007_dlq_inserted adp_008_watermark_regress sto_001_t1_timeout
        sto_002_t1_oom sto_003_t1_cas_retry_exhausted sto_004_t2_lease_expired sto_005_t3_corruption
        sto_006_t3_full rec_001_drift_transient rec_002_drift_stale_device rec_003_drift_object
        rec_004_drift_total rec_005_drift_unknown rec_006_peer_drift rec_007_hash_rpc_fail
        rec_008_persistent_drift ha_001_failover_initiated ha_002_failover_timeout
        ha_003_split_brain_suspected ha_004_session_repl_lag ha_005_orphaned_standby :
      Code
  unlisted : Bytes → Code

abbrev pub unknown : Code
unknown = unlisted (bytes "UNKNOWN")

-- The string of a code.
unfoldable pub code_string : Code → Bytes
code_string api_001_bad_request = bytes "API_001_BAD_REQUEST"
code_string api_002_auth_failed = bytes "API_002_AUTH_FAILED"
code_string api_003_not_found = bytes "API_003_NOT_FOUND"
code_string api_004_conflict = bytes "API_004_CONFLICT"
code_string api_005_rate_limited = bytes "API_005_RATE_LIMITED"
code_string api_006_admission_rejected = bytes "API_006_ADMISSION_REJECTED"
code_string api_007_shard_not_owned = bytes "API_007_SHARD_NOT_OWNED"
code_string api_008_timeout = bytes "API_008_TIMEOUT"
code_string reg_001_key_not_found = bytes "REG_001_KEY_NOT_FOUND"
code_string reg_002_watch_lost = bytes "REG_002_WATCH_LOST"
code_string reg_003_watch_failed = bytes "REG_003_WATCH_FAILED"
code_string reg_004_acquire_timeout = bytes "REG_004_ACQUIRE_TIMEOUT"
code_string reg_005_assembler_incomplete = bytes "REG_005_ASSEMBLER_INCOMPLETE"
code_string reg_006_value_decode_failed = bytes "REG_006_VALUE_DECODE_FAILED"
code_string reg_007_refcount_underflow = bytes "REG_007_REFCOUNT_UNDERFLOW"
code_string reg_008_cache_oom = bytes "REG_008_CACHE_OOM"
code_string act_001_parent_not_ready = bytes "ACT_001_PARENT_NOT_READY"
code_string act_002_inputs_not_ready = bytes "ACT_002_INPUTS_NOT_READY"
code_string act_003_compose_failed = bytes "ACT_003_COMPOSE_FAILED"
code_string act_004_mailbox_dropped = bytes "ACT_004_MAILBOX_DROPPED"
code_string act_005_panic_recovered = bytes "ACT_005_PANIC_RECOVERED"
code_string act_006_repeated_panic = bytes "ACT_006_REPEATED_PANIC"
code_string act_007_state_invariant_broken = bytes "ACT_007_STATE_INVARIANT_BROKEN"
code_string act_008_deadline_exceeded = bytes "ACT_008_DEADLINE_EXCEEDED"
code_string drv_001_connection_lost = bytes "DRV_001_CONNECTION_LOST"
code_string drv_002_timeout = bytes "DRV_002_TIMEOUT"
code_string drv_003_invalid_payload = bytes "DRV_003_INVALID_PAYLOAD"
code_string drv_004_resource_exhausted = bytes "DRV_004_RESOURCE_EXHAUSTED"
code_string drv_005_version_mismatch = bytes "DRV_005_VERSION_MISMATCH"
code_string drv_006_partial_apply = bytes "DRV_006_PARTIAL_APPLY"
code_string drv_007_device_rejected = bytes "DRV_007_DEVICE_REJECTED"
code_string drv_008_permanent_failure = bytes "DRV_008_PERMANENT_FAILURE"
code_string drv_009_capability_missing = bytes "DRV_009_CAPABILITY_MISSING"
code_string drv_010_hash_mismatch = bytes "DRV_010_HASH_MISMATCH"
code_string adp_001_lease_lost = bytes "ADP_001_LEASE_LOST"
code_string adp_002_cas_conflict = bytes "ADP_002_CAS_CONFLICT"
code_string adp_003_schema_rejected = bytes "ADP_003_SCHEMA_REJECTED"
code_string adp_004_unknown_event_type = bytes "ADP_004_UNKNOWN_EVENT_TYPE"
code_string adp_005_t1_unreachable = bytes "ADP_005_T1_UNREACHABLE"
code_string adp_006_t2_unreachable = bytes "ADP_006_T2_UNREACHABLE"
code_string adp_007_dlq_inserted = bytes "ADP_007_DLQ_INSERTED"
code_string adp_008_watermark_regress = bytes "ADP_008_WATERMARK_REGRESS"
code_string sto_001_t1_timeout = bytes "STO_001_T1_TIMEOUT"
code_string sto_002_t1_oom = bytes "STO_002_T1_OOM"
code_string sto_003_t1_cas_retry_exhausted = bytes "STO_003_T1_CAS_RETRY_EXHAUSTED"
code_string sto_004_t2_lease_expired = bytes "STO_004_T2_LEASE_EXPIRED"
code_string sto_005_t3_corruption = bytes "STO_005_T3_CORRUPTION"
code_string sto_006_t3_full = bytes "STO_006_T3_FULL"
code_string rec_001_drift_transient = bytes "REC_001_DRIFT_TRANSIENT"
code_string rec_002_drift_stale_device = bytes "REC_002_DRIFT_STALE_DEVICE"
code_string rec_003_drift_object = bytes "REC_003_DRIFT_OBJECT"
code_string rec_004_drift_total = bytes "REC_004_DRIFT_TOTAL"
code_string rec_005_drift_unknown = bytes "REC_005_DRIFT_UNKNOWN"
code_string rec_006_peer_drift = bytes "REC_006_PEER_DRIFT"
code_string rec_007_hash_rpc_fail = bytes "REC_007_HASH_RPC_FAIL"
code_string rec_008_persistent_drift = bytes "REC_008_PERSISTENT_DRIFT"
code_string ha_001_failover_initiated = bytes "HA_001_FAILOVER_INITIATED"
code_string ha_002_failover_timeout = bytes "HA_002_FAILOVER_TIMEOUT"
code_string ha_003_split_brain_suspected = bytes "HA_003_SPLIT_BRAIN_SUSPECTED"
code_string ha_004_session_repl_lag = bytes "HA_004_SESSION_REPL_LAG"
code_string ha_005_orphaned_standby = bytes "HA_005_ORPHANED_STANDBY"
code_string (unlisted s) = s
