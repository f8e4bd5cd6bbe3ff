-- ===== src/Gateway/CacheFlow/New.antt =====
-- The constructors of `GatewayState` in crates/gateway/src/cache_flow.rs. The clients are in the
-- environment, so a constructor that takes clients takes their world here.
use mooncache.Prelude.{true, false, List, [], ◌∷◌, none, some, Text, text}
use mooncache.Common.{TenantId}
use mooncache.Common.Metrics.{no_gateway_metrics}
use mooncache.Master.State.{MasterState, default_state}
use mooncache.Store.Memory.{MemoryStore, with_capacity}
use mooncache.Gateway.Config.{TenantConfig, TenantConfigSet}
use mooncache.Gateway.Singleflight.{new_group}
use mooncache.Gateway.Clients.Local.{LocalCluster}
use mooncache.Gateway.CacheFlow.{GatewayState}

-- `TenantId::parse(TEST_TENANT_ID)`, which is not blank.
abbrev pub test_tenant : TenantId
test_tenant = record { value = text "test-tenant" }

-- `LocalMasterClient::new` and `LocalStoreClient::new`
abbrev pub local_cluster : MasterState → MemoryStore → LocalCluster
local_cluster master store = record {
  master = master;
  master_poisoned = false;
  memory = store;
  memory_poisoned = false;
}

-- `tenants().next().map(..).unwrap_or_else(..)`
unfoldable pub first_tenant_id : List (Text × TenantConfig) → TenantId
first_tenant_id [] = test_tenant
first_tenant_id ((id, config) ∷ tenants) = config.id

module _ {Number : Type 0} where
  -- `DEFAULT_MAX_WAITERS_PER_KEY` is 1024.
  unfoldable pub new_with_clients : {W : Type 0} → W → GatewayState W Number
  new_with_clients world = record {
    tenant_id = test_tenant;
    tenant_configs = none;
    singleflight = new_group 1024;
    metrics = no_gateway_metrics;
    cache_available = true;
    world = world;
  }

  unfoldable pub new_with_clients_and_tenant_config :
      {W : Type 0} → W → TenantConfigSet → GatewayState W Number
  unfolding new_with_clients first_tenant_id
  new_with_clients_and_tenant_config world tenant_configs = record (new_with_clients world) {
    tenant_id = first_tenant_id tenant_configs.tenants;
    tenant_configs = some tenant_configs;
  }

  unfoldable pub new_for_test : MasterState → MemoryStore → GatewayState LocalCluster Number
  unfolding new_with_clients
  new_for_test master store = new_with_clients (local_cluster master store)

  unfoldable pub new_with_tenant_config :
      MasterState → MemoryStore → TenantConfigSet → GatewayState LocalCluster Number
  unfolding new_with_clients_and_tenant_config
  new_with_tenant_config master store tenant_configs =
      new_with_clients_and_tenant_config (local_cluster master store) tenant_configs

  unfoldable pub new_with_unavailable_cache_for_test : GatewayState LocalCluster Number
  unfolding new_with_clients
  new_with_unavailable_cache_for_test =
      record (new_with_clients (local_cluster default_state (with_capacity 0))) {
        cache_available = false;
      }
