-- ===== src/Config/Tests.antt =====
-- internal/config/config.go on one configuration.
