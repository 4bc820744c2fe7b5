-- ===== src/Schema.antt =====
-- redpanda/resources/schema/resource_schema.go and redpanda/models/schema/resource_model.go: the schema
-- resource.
pub mod Model
pub mod Registry
pub mod Import
pub mod Create
pub mod Read
pub mod Update
pub mod Delete
mod Tests
