-- ===== src/Alerts.antt =====
-- app/services/alerts/processing_alerts.py and app/services/alerts/phone_delivery.py: the alerts that are
-- received, and their delivery to phones.
pub mod Store
pub mod Retained
pub mod Hub
pub mod Meant
pub mod Delivery
