-- ===== src/Alert.antt =====
-- Threshold alerting, internal/alert: the rules, their store, and the evaluation of a rule.
pub mod Rule
pub mod Rows
pub mod Database
pub mod Evaluator
pub mod Manager
