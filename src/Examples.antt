-- ===== src/Examples.antt =====
-- The theorems at concrete inputs, a module for each part of the program.
mod PermissionCases
mod RepairCases
mod PoolCases
mod CacheCases
mod SwarmCases
mod TernaryCases
mod UgmCases
mod VaultCases
mod ToolsCases
mod FanoutCases
mod McpCases
mod RouterCases
mod AgentCases
mod MemoryCases
