-- ===== src/Topic/Create/Outcome.antt =====
-- What Topic.Create leaves in the state.
