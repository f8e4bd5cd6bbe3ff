-- ===== src/Master/Quota.antt =====
-- crates/master/src/quota.rs. A method that may fail leaves the quota alone when it does, so it
-- returns the new quota or the error.
use mooncache.Prelude.{ℕ, ◌-◌, ◌++◌, none, some, ltb, if◌then◌else◌, checked_add, decimal, text}
use mooncache.Common.{CacheResult, ok, err, quota_exceeded}

pub record TenantQuota : Type 0 where
  pub dram_bytes : ℕ
  pub ssd_bytes : ℕ
  pub used_dram_bytes : ℕ
  pub used_ssd_bytes : ℕ

unfoldable pub with_usage : ℕ → ℕ → ℕ → TenantQuota
with_usage dram_bytes ssd_bytes used_dram_bytes = record {
  dram_bytes = dram_bytes;
  ssd_bytes = ssd_bytes;
  used_dram_bytes = used_dram_bytes;
  used_ssd_bytes = 0;
}

unfoldable pub reserve_dram : TenantQuota → ℕ → CacheResult TenantQuota
reserve_dram q bytes = elim (checked_add q.used_dram_bytes bytes) [
  | none ↦ err (quota_exceeded (text "DRAM quota accounting overflow"))
  | some next_used ↦
      if ltb q.dram_bytes next_used
      then err (
          quota_exceeded (
            text "DRAM quota exceeded: requested "
            ++ (decimal next_used
                ++ (text " bytes, limit " ++ (decimal q.dram_bytes ++ text " bytes")))))
      else ok (record q { used_dram_bytes = next_used })
]

-- `saturating_sub`
unfoldable pub release_dram : TenantQuota → ℕ → TenantQuota
release_dram q bytes = record q { used_dram_bytes = q.used_dram_bytes - bytes }
