-- ===== src/Topic.antt =====
-- redpanda/resources/topic/resource_topic.go and what it uses of redpanda/utils/utils.go: the topic
-- resource.
pub mod Config
pub mod Search
pub mod Model
pub mod Handler
pub mod Retried
pub mod Configured
pub mod Delete
pub mod Read
pub mod Create
pub mod Update
mod Tests
