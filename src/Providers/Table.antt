-- ===== src/Providers/Table.antt =====
-- The built-in providers of python/src/aikernel_net/standard_providers.py, and the public functions
-- over them.
use mathlib.Core.Option as Maybe
use aikernel_core.Base.{String, List, [], ◌∷◌}
use aikernel_core.Python.Effect.{Outcome}
use aikernel_core.Providers.{
  CapabilityContract, StandardProviderContract, find_provider, find_capability,
  canonical_capability_id, managed_types,
}

abbrev pub minimal_runtime_capability : CapabilityContract
minimal_runtime_capability = record {
  capability_id = "aikernel.runtime.ping";
  provider_id = "aikernel.runtime.minimal";
  name = "Minimal Runtime Ping";
  version = "1.0.0";
  operations = "runtime.ping" ∷ [];
  kind = "Utility";
  invocation_mode = "Inline";
  tags = "runtime" ∷ "minimal" ∷ "ping" ∷ [];
  managed_contract_type =
      "AIKernel.Core.Providers.MinimalRuntimeProvider.MinimalRuntimeCapabilityContracts";
  managed_invoker_type = "AIKernel.Core.Providers.MinimalRuntimeProvider.MinimalRuntimeInvoker";
}

abbrev pub minimal_runtime_provider : StandardProviderContract
minimal_runtime_provider = record {
  provider_id = "aikernel.runtime.minimal";
  name = "Minimal Runtime Provider";
  version = "1.0.0";
  managed_provider_type = "AIKernel.Core.Providers.MinimalRuntimeProvider.MinimalRuntimeProvider";
  managed_invoker_type = Maybe.none;
  capabilities = minimal_runtime_capability ∷ [];
}

abbrev pub local_execution_capability : CapabilityContract
local_execution_capability = record {
  capability_id = "aikernel.local.execute";
  provider_id = "aikernel.local";
  name = "Local Execution";
  version = "1.0.0";
  operations = "pipeline.execute" ∷ [];
  kind = "Execution";
  invocation_mode = "Inline";
  tags = "local" ∷ "execution" ∷ "dsl" ∷ [];
  managed_contract_type =
      "AIKernel.Core.Providers.LocalExecutionProvider.LocalExecutionCapabilityContracts";
  managed_invoker_type = "AIKernel.Core.Providers.LocalExecutionProvider.LocalExecutionInvoker";
}

abbrev pub local_execution_provider : StandardProviderContract
local_execution_provider = record {
  provider_id = "aikernel.local";
  name = "Local Execution Provider";
  version = "1.0.0";
  managed_provider_type = "AIKernel.Core.Providers.LocalExecutionProvider.LocalExecutionProvider";
  managed_invoker_type = Maybe.none;
  capabilities = local_execution_capability ∷ [];
}

abbrev pub vfs_capability : CapabilityContract
vfs_capability = record {
  capability_id = "aikernel.vfs";
  provider_id = "aikernel.vfs";
  name = "Virtual File System Read";
  version = "1.0.0";
  operations = "vfs.exists" ∷ "vfs.list" ∷ "vfs.metadata" ∷ "vfs.read_file" ∷ [];
  kind = "Storage";
  invocation_mode = "Inline";
  tags = "vfs" ∷ "filesystem" ∷ "storage" ∷ "core" ∷ [];
  managed_contract_type = "AIKernel.Core.Providers.VfsProvider.VfsCapabilityContracts";
  managed_invoker_type = "AIKernel.Core.Providers.VfsProvider.VfsInvoker";
}

abbrev pub vfs_provider : StandardProviderContract
vfs_provider = record {
  provider_id = "aikernel.vfs";
  name = "Virtual File System Provider";
  version = "1.0.0";
  managed_provider_type = "AIKernel.Core.Providers.VfsProvider.VfsProvider";
  managed_invoker_type = Maybe.none;
  capabilities = vfs_capability ∷ [];
}

abbrev pub skill_provider : StandardProviderContract
skill_provider = record {
  provider_id = "aikernel.skill";
  name = "Skill Provider";
  version = "1.0.0";
  managed_provider_type = "AIKernel.Core.Providers.SkillProvider.SkillProvider";
  managed_invoker_type = Maybe.some "AIKernel.Core.Providers.SkillProvider.SkillProvider";
  capabilities = [];
}

abbrev pub system_info_capability : CapabilityContract
system_info_capability = record {
  capability_id = "aikernel.system.info";
  provider_id = "aikernel.system";
  name = "System Information";
  version = "1.0.0";
  operations =
      "system.capabilities" ∷ "system.info" ∷ "system.providers" ∷ "system.runtime" ∷ "system.vfs"
      ∷ [];
  kind = "Utility";
  invocation_mode = "Inline";
  tags = "system" ∷ "info" ∷ "introspection" ∷ "core" ∷ [];
  managed_contract_type =
      "AIKernel.Core.Providers.SystemInfoProvider.SystemInfoCapabilityContracts";
  managed_invoker_type = "AIKernel.Core.Providers.SystemInfoProvider.SystemInfoInvoker";
}

abbrev pub system_info_provider : StandardProviderContract
system_info_provider = record {
  provider_id = "aikernel.system";
  name = "System Information Provider";
  version = "1.0.0";
  managed_provider_type = "AIKernel.Core.Providers.SystemInfoProvider.SystemInfoProvider";
  managed_invoker_type = Maybe.none;
  capabilities = system_info_capability ∷ [];
}

-- `_STANDARD_PROVIDERS`, which `standard_provider_contracts` returns
abbrev pub standard_providers : List StandardProviderContract
standard_providers =
    minimal_runtime_provider ∷ local_execution_provider ∷ vfs_provider ∷ skill_provider
    ∷ system_info_provider ∷ []

unfoldable pub standard_provider : String → Outcome StandardProviderContract
unfolding find_provider
standard_provider = find_provider standard_providers

unfoldable pub standard_capability : String → Outcome CapabilityContract
unfolding find_capability canonical_capability_id
standard_capability capability_id =
    find_capability standard_providers (canonical_capability_id capability_id) capability_id

unfoldable pub standard_provider_managed_types : List String
unfolding managed_types
standard_provider_managed_types = managed_types standard_providers
