-- ===== src/Fm/Errors.antt =====
-- src/FM/pkg/errors/classify.go: the catalogue.
pub mod Codes
pub mod Laws
mod Tests
use dash_fabric.Base.{
  Bool, true, false, List, [], ◌∷◌, ◌++◌, Option, none, some, Bytes, bytes, or_else,
}
use dash_fabric.Fm.Errors.Codes.*

pub data Severity : Type 0 where
  info warn error critical : Severity

pub data Recoverability : Type 0 where
  not_applicable transient permanent operator : Recoverability

pub data Blast : Type 0 where
  single_eni single_device shard pod ha_scope cluster : Blast

pub record Info : Type 0 where
  pub code : Code
  pub severity : Severity
  pub recoverability : Recoverability
  pub blast : Blast
  pub runbook : Bytes
  pub meaning : Bytes

abbrev entry : Code → Severity → Recoverability → Blast → Bytes → Bytes → Option Info
entry c s r b runbook meaning = some (record {
  code = c;
  severity = s;
  recoverability = r;
  blast = b;
  runbook = runbook;
  meaning = meaning;
})

-- catalog[c]
unfoldable pub catalog : Code → Option Info
catalog api_001_bad_request =
    entry api_001_bad_request warn operator single_eni [] (bytes "Schema violation in input")
catalog api_002_auth_failed =
    entry api_002_auth_failed warn operator single_eni [] (bytes "mTLS/JWT rejected")
catalog api_003_not_found =
    entry api_003_not_found info not_applicable single_eni [] (bytes "Device/ENI doesn't exist")
catalog api_004_conflict =
    entry api_004_conflict warn transient single_eni [] (bytes "ETag mismatch (concurrent modify)")
catalog api_005_rate_limited =
    entry api_005_rate_limited info transient single_eni [] (bytes "Client over quota")
catalog api_006_admission_rejected =
    entry api_006_admission_rejected warn operator pod [] (bytes "Pod over capacity")
catalog api_007_shard_not_owned =
    entry api_007_shard_not_owned info transient single_eni []
      (bytes "Request to wrong pod; redirect")
catalog api_008_timeout = entry api_008_timeout error transient single_eni [] (bytes "Backend slow")
catalog reg_001_key_not_found =
    entry reg_001_key_not_found info not_applicable single_eni []
      (bytes "Acquire on non-existent key")
catalog reg_002_watch_lost =
    entry reg_002_watch_lost warn transient single_eni [] (bytes "etcd stream dropped")
catalog reg_003_watch_failed =
    entry reg_003_watch_failed error transient shard [] (bytes "etcd unreachable after retries")
catalog reg_004_acquire_timeout =
    entry reg_004_acquire_timeout warn transient single_eni []
      (bytes "Ready not closed within deadline")
catalog reg_005_assembler_incomplete =
    entry reg_005_assembler_incomplete warn transient single_eni []
      (bytes "VnetMapping chunks missing")
catalog reg_006_value_decode_failed =
    entry reg_006_value_decode_failed error permanent single_eni [] (bytes "T1 has invalid proto")
catalog reg_007_refcount_underflow =
    entry reg_007_refcount_underflow critical permanent pod
      (bytes "Specs/Runbooks/REG_007_REFCOUNT_UNDERFLOW.md")
      (bytes "Bug: more Releases than Acquires")
catalog reg_008_cache_oom =
    entry reg_008_cache_oom critical transient pod (bytes "Specs/Runbooks/REG_008_CACHE_OOM.md")
      (bytes "Memory budget exceeded")
catalog act_001_parent_not_ready =
    entry act_001_parent_not_ready info transient single_eni [] (bytes "NicActor waiting on HDO")
catalog act_002_inputs_not_ready =
    entry act_002_inputs_not_ready info transient single_eni []
      (bytes "NicActor waiting on registries")
catalog act_003_compose_failed =
    entry act_003_compose_failed error permanent single_eni []
      (bytes "Validation rejected (bad spec)")
catalog act_004_mailbox_dropped =
    entry act_004_mailbox_dropped warn transient single_eni [] (bytes "Registry burst overflowed")
catalog act_005_panic_recovered =
    entry act_005_panic_recovered error permanent single_eni []
      (bytes "Goroutine recovered from panic")
catalog act_006_repeated_panic =
    entry act_006_repeated_panic critical permanent single_eni
      (bytes "Specs/Runbooks/ACT_006_REPEATED_PANIC.md") (bytes "Quarantined (3 panics in 10min)")
catalog act_007_state_invariant_broken =
    entry act_007_state_invariant_broken critical permanent pod
      (bytes "Specs/Runbooks/ACT_007_STATE_INVARIANT_BROKEN.md")
      (bytes "State machine corrupted (bug)")
catalog act_008_deadline_exceeded =
    entry act_008_deadline_exceeded warn transient single_eni []
      (bytes "Compose/program exceeded budget")
catalog drv_001_connection_lost =
    entry drv_001_connection_lost warn transient single_device [] (bytes "gRPC/SAI broken")
catalog drv_002_timeout =
    entry drv_002_timeout warn transient single_eni [] (bytes "Per-command deadline")
catalog drv_003_invalid_payload =
    entry drv_003_invalid_payload error operator single_eni [] (bytes "Device rejected schema")
catalog drv_004_resource_exhausted =
    entry drv_004_resource_exhausted error operator single_device [] (bytes "Device tables full")
catalog drv_005_version_mismatch =
    entry drv_005_version_mismatch warn transient single_eni [] (bytes "Plan stale; recompose")
catalog drv_006_partial_apply =
    entry drv_006_partial_apply error transient single_eni [] (bytes "Mid-wave failure")
catalog drv_007_device_rejected =
    entry drv_007_device_rejected error operator single_eni [] (bytes "Device-level validation")
catalog drv_008_permanent_failure =
    entry drv_008_permanent_failure critical permanent single_device
      (bytes "Specs/Runbooks/DRV_008_PERMANENT_FAILURE.md") (bytes "Quarantine")
catalog drv_009_capability_missing =
    entry drv_009_capability_missing error operator single_device []
      (bytes "Device lacks required feature")
catalog drv_010_hash_mismatch =
    entry drv_010_hash_mismatch error transient single_eni []
      ((bytes "Post-apply hash " ++ (226 ∷ 137 ∷ 160 ∷ []) ++ bytes " target"))
catalog adp_001_lease_lost =
    entry adp_001_lease_lost warn transient pod [] (bytes "Adapter pod lost leadership")
catalog adp_002_cas_conflict =
    entry adp_002_cas_conflict info transient single_eni [] (bytes "Concurrent T1 write")
catalog adp_003_schema_rejected =
    entry adp_003_schema_rejected error operator single_eni [] (bytes "CB sent invalid event")
catalog adp_004_unknown_event_type =
    entry adp_004_unknown_event_type error operator single_eni []
      (bytes "CB plugin/FM version skew")
catalog adp_005_t1_unreachable =
    entry adp_005_t1_unreachable critical transient cluster
      (bytes "Specs/Runbooks/ADP_005_T1_UNREACHABLE.md") (bytes "etcd down")
catalog adp_006_t2_unreachable =
    entry adp_006_t2_unreachable critical transient cluster
      (bytes "Specs/Runbooks/ADP_006_T2_UNREACHABLE.md") (bytes "etcd down")
catalog adp_007_dlq_inserted =
    entry adp_007_dlq_inserted warn operator single_eni [] (bytes "Event dead-lettered")
catalog adp_008_watermark_regress =
    entry adp_008_watermark_regress critical permanent cluster
      (bytes "Specs/Runbooks/ADP_008_WATERMARK_REGRESS.md") (bytes "Bug: watermark went backwards")
catalog sto_001_t1_timeout = entry sto_001_t1_timeout warn transient shard [] (bytes "etcd slow")
catalog sto_002_t1_oom =
    entry sto_002_t1_oom critical operator cluster (bytes "Specs/Runbooks/STO_002_T1_OOM.md")
      (bytes "etcd memory exhausted")
catalog sto_003_t1_cas_retry_exhausted =
    entry sto_003_t1_cas_retry_exhausted error transient single_eni []
      (bytes "Lost CAS race repeatedly")
catalog sto_004_t2_lease_expired =
    entry sto_004_t2_lease_expired warn transient pod [] (bytes "Lease lost mid-op")
catalog sto_005_t3_corruption =
    entry sto_005_t3_corruption critical permanent pod
      (bytes "Specs/Runbooks/STO_005_T3_CORRUPTION.md") (bytes "RocksDB integrity check failed")
catalog sto_006_t3_full =
    entry sto_006_t3_full error operator pod [] (bytes "Local cache full; eviction can't keep up")
catalog rec_001_drift_transient =
    entry rec_001_drift_transient info transient single_eni [] (bytes "Cleared on retry")
catalog rec_002_drift_stale_device =
    entry rec_002_drift_stale_device warn transient single_eni [] (bytes "Re-applying")
catalog rec_003_drift_object =
    entry rec_003_drift_object warn transient single_eni [] (bytes "Targeted fix")
catalog rec_004_drift_total =
    entry rec_004_drift_total error transient single_eni [] (bytes "Full re-program")
catalog rec_005_drift_unknown =
    entry rec_005_drift_unknown critical operator single_eni
      (bytes "Specs/Runbooks/REC_005_DRIFT_UNKNOWN.md")
      (bytes "Quarantined; external edit suspected")
catalog rec_006_peer_drift =
    entry rec_006_peer_drift info transient single_eni [] (bytes "HA failover artifact")
catalog rec_007_hash_rpc_fail =
    entry rec_007_hash_rpc_fail warn transient single_device [] (bytes "Device unreachable")
catalog rec_008_persistent_drift =
    entry rec_008_persistent_drift critical operator single_eni
      (bytes "Specs/Runbooks/REC_008_PERSISTENT_DRIFT.md") (bytes "5+ drifts in 1hr")
catalog ha_001_failover_initiated =
    entry ha_001_failover_initiated info not_applicable single_eni [] (bytes "Normal HA op")
catalog ha_002_failover_timeout =
    entry ha_002_failover_timeout error transient single_eni []
      (bytes "Peer didn't take over in budget")
catalog ha_003_split_brain_suspected =
    entry ha_003_split_brain_suspected critical operator ha_scope
      (bytes "Specs/Runbooks/HA_003_SPLIT_BRAIN_SUSPECTED.md") (bytes "Both peers claim PRIMARY")
catalog ha_004_session_repl_lag =
    entry ha_004_session_repl_lag warn transient ha_scope [] (bytes "Replication lag > 1s")
catalog ha_005_orphaned_standby =
    entry ha_005_orphaned_standby warn operator ha_scope [] (bytes "Standby has no primary")
catalog (unlisted s) = none

abbrev pub unknown_info : Info
unknown_info = record {
  code = unknown;
  severity = error;
  recoverability = permanent;
  blast = single_eni;
  runbook = [];
  meaning = bytes "Unrecognised error code";
}

unfoldable pub classify : Code → Info
classify c = or_else (catalog c) unknown_info

-- Info.Retryable
unfoldable pub retryable : Info → Bool
retryable i = elim i.recoverability [ transient ↦ true | _ ↦ false ]
