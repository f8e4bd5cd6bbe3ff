-- ===== src/Common/Metrics.antt =====
-- crates/common/src/metrics.rs: the counters. `fetch_add` wraps at 64 bits. A lock that is poisoned
-- is entered all the same, so it makes no difference here.
use mooncache.Prelude.{
  ℕ, none, some, List, [], ◌∷◌, Text, text, text_eq, lookup, insert, wrapping_add, max, min,
  u64_max,
}

pub data CacheMetric : Type 0 where
  request_total request_latency_seconds vendor_calls_avoided_total singleflight_waiters_total :
      CacheMetric
  master_objects_total master_evictions_total store_dram_bytes store_ssd_bytes : CacheMetric
  store_read_latency_seconds admin_audit_events_total : CacheMetric

-- `CacheMetric::name`
unfoldable pub metric_name : CacheMetric → Text
metric_name request_total = text "mooncache_gateway_requests_total"
metric_name request_latency_seconds = text "mooncache_gateway_request_latency_seconds"
metric_name vendor_calls_avoided_total = text "mooncache_gateway_vendor_calls_avoided_total"
metric_name singleflight_waiters_total = text "mooncache_gateway_singleflight_waiters_total"
metric_name master_objects_total = text "mooncache_master_objects_total"
metric_name master_evictions_total = text "mooncache_master_evictions_total"
metric_name store_dram_bytes = text "mooncache_store_dram_bytes"
metric_name store_ssd_bytes = text "mooncache_store_ssd_bytes"
metric_name store_read_latency_seconds = text "mooncache_store_read_latency_seconds"
metric_name admin_audit_events_total = text "mooncache_admin_audit_events_total"

pub data ObservedCacheStatus : Type 0 where
  hit miss bypass ineligible cache_only_miss degraded : ObservedCacheStatus

-- `CacheStatus::as_label`
unfoldable pub status_label : ObservedCacheStatus → Text
status_label hit = text "hit"
status_label miss = text "miss"
status_label bypass = text "bypass"
status_label ineligible = text "ineligible"
status_label cache_only_miss = text "cache_only_miss"
status_label degraded = text "degraded"

pub data ObservedWriteStatus : Type 0 where
  write_committed write_failed write_skipped : ObservedWriteStatus

-- `CacheWriteStatus::as_label`
unfoldable pub write_label : ObservedWriteStatus → Text
write_label write_committed = text "committed"
write_label write_failed = text "failed"
write_label write_skipped = text "skipped"

pub data SingleflightRole : Type 0 where
  leader waiter no_role over_capacity : SingleflightRole

-- `SingleflightRole::as_label`
unfoldable pub role_label : SingleflightRole → Text
role_label leader = text "leader"
role_label waiter = text "waiter"
role_label no_role = text "none"
role_label over_capacity = text "over_capacity"

-- `GatewayMetrics`, and its snapshot, which has the same fields.
pub record GatewayMetrics : Type 0 where
  pub cache_hits : ℕ
  pub cache_misses : ℕ
  pub cache_bypasses : ℕ
  pub cache_ineligible : ℕ
  pub cache_only_misses : ℕ
  pub cache_degraded : ℕ
  pub writes_committed : ℕ
  pub writes_failed : ℕ
  pub writes_skipped : ℕ
  pub singleflight_leaders : ℕ
  pub singleflight_waiters : ℕ
  pub singleflight_none : ℕ
  pub singleflight_over_capacity : ℕ
  pub vendor_calls : ℕ
  pub vendor_latency_micros_total : ℕ

abbrev pub no_gateway_metrics : GatewayMetrics
no_gateway_metrics = record {
  cache_hits = 0;
  cache_misses = 0;
  cache_bypasses = 0;
  cache_ineligible = 0;
  cache_only_misses = 0;
  cache_degraded = 0;
  writes_committed = 0;
  writes_failed = 0;
  writes_skipped = 0;
  singleflight_leaders = 0;
  singleflight_waiters = 0;
  singleflight_none = 0;
  singleflight_over_capacity = 0;
  vendor_calls = 0;
  vendor_latency_micros_total = 0;
}

unfoldable pub record_cache_status : GatewayMetrics → ObservedCacheStatus → GatewayMetrics
record_cache_status m hit = record m { cache_hits = wrapping_add m.cache_hits 1 }
record_cache_status m miss = record m { cache_misses = wrapping_add m.cache_misses 1 }
record_cache_status m bypass = record m { cache_bypasses = wrapping_add m.cache_bypasses 1 }
record_cache_status m ineligible = record m { cache_ineligible = wrapping_add m.cache_ineligible 1 }
record_cache_status m cache_only_miss = record m {
  cache_only_misses = wrapping_add m.cache_only_misses 1;
}
record_cache_status m degraded = record m { cache_degraded = wrapping_add m.cache_degraded 1 }

unfoldable pub record_write : GatewayMetrics → ObservedWriteStatus → GatewayMetrics
record_write m write_committed = record m { writes_committed = wrapping_add m.writes_committed 1 }
record_write m write_failed = record m { writes_failed = wrapping_add m.writes_failed 1 }
record_write m write_skipped = record m { writes_skipped = wrapping_add m.writes_skipped 1 }

unfoldable pub record_singleflight : GatewayMetrics → SingleflightRole → GatewayMetrics
record_singleflight m leader = record m {
  singleflight_leaders = wrapping_add m.singleflight_leaders 1;
}
record_singleflight m waiter = record m {
  singleflight_waiters = wrapping_add m.singleflight_waiters 1;
}
record_singleflight m no_role = record m { singleflight_none = wrapping_add m.singleflight_none 1 }
record_singleflight m over_capacity = record m {
  singleflight_over_capacity = wrapping_add m.singleflight_over_capacity 1;
}

-- The latency is given in whole microseconds, a `u128`.
unfoldable pub record_vendor_call : GatewayMetrics → ℕ → GatewayMetrics
record_vendor_call m latency_micros = record m {
  vendor_calls = wrapping_add m.vendor_calls 1;
  vendor_latency_micros_total =
      wrapping_add m.vendor_latency_micros_total (max (min latency_micros u64_max) 1);
}

pub data AdminActionResult : Type 0 where
  action_success action_denied action_failed : AdminActionResult

-- `AdminActionResult::as_label`
unfoldable pub action_result_label : AdminActionResult → Text
action_result_label action_success = text "success"
action_result_label action_denied = text "denied"
action_result_label action_failed = text "failed"

-- `AdminMetrics`, and its snapshot, which has the same fields.
pub record AdminMetrics : Type 0 where
  pub audit_events_total : ℕ
  pub audit_success_total : ℕ
  pub audit_denied_total : ℕ
  pub audit_failed_total : ℕ
  pub action_counts : List (Text × ℕ)

abbrev pub no_admin_metrics : AdminMetrics
no_admin_metrics = record {
  audit_events_total = 0;
  audit_success_total = 0;
  audit_denied_total = 0;
  audit_failed_total = 0;
  action_counts = [];
}

-- `*counts.entry(action).or_default() += 1`; the source would panic, or wrap in a release build, at
-- `u64::MAX` of one action, and here it wraps.
unfoldable pub count_action : Text → List (Text × ℕ) → List (Text × ℕ)
count_action action counts = elim (lookup action counts) [
  | none ↦ insert action 1 counts
  | some count ↦ insert action (wrapping_add count 1) counts
]

-- The `match` of `record_action` on the result.
unfoldable pub count_result : AdminMetrics → AdminActionResult → AdminMetrics
count_result m action_success = record m {
  audit_success_total = wrapping_add m.audit_success_total 1;
}
count_result m action_denied = record m { audit_denied_total = wrapping_add m.audit_denied_total 1 }
count_result m action_failed = record m { audit_failed_total = wrapping_add m.audit_failed_total 1 }

unfoldable pub record_action : AdminMetrics → Text → AdminActionResult → AdminMetrics
unfolding count_action count_result
record_action m action result =
    let counted =
      count_result (record m { audit_events_total = wrapping_add m.audit_events_total 1 }) result in
    record counted { action_counts = count_action action counted.action_counts }

pub record GatewayTraceFields : Type 0 where
  pub request_id : Text
  pub tenant_id : Text
  pub cache_key_redacted : Text
  pub cache_status : ObservedCacheStatus
  pub vendor_id : Text
  pub model_version : Text
  pub coalesced_role : SingleflightRole
  pub writeback_status : ObservedWriteStatus

-- The entries of the `BTreeMap`, in the order of their keys.
unfoldable pub as_label_pairs : GatewayTraceFields → List (Text × Text)
unfolding status_label role_label write_label
as_label_pairs fields =
    (text "cache_key", fields.cache_key_redacted)
    ∷ (text "cache_status", status_label fields.cache_status)
    ∷ (text "coalesced_role", role_label fields.coalesced_role)
    ∷ (text "model_version", fields.model_version)
    ∷ (text "request_id", fields.request_id)
    ∷ (text "tenant_id", fields.tenant_id)
    ∷ (text "vendor_id", fields.vendor_id)
    ∷ (text "writeback_status", write_label fields.writeback_status)
    ∷ []
