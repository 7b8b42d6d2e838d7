-- ===== src/Connector.antt =====
-- src/core/domain/connector and src/core/application/connector: tools, their policy and approvals.
pub mod Capabilities
pub mod Policy
pub mod Approval
pub mod Json
pub mod Schema
pub mod Invocation
