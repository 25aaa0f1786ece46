-- ===== src/Alerts.antt =====
-- apps/business/alert_system: rules, silences and the history of alerts. Rules is the matching of a
-- rule and of a silence, History the operations of services/alert_engine.py on stored alerts.
mod Rules
mod History
mod Suppression
mod Handling
mod Escalation
mod Repeats
mod Engine
mod Announced
mod Examples
