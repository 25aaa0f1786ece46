-- ===== src/Caching/Removal.antt =====
-- A tag removes every key that was set with it, after any calls within a month.
use django_project_test.Base.{string_eq}
