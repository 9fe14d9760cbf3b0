-- ===== src/Migrate.antt =====
-- tools/migrate: planning and applying schema migrations.
pub mod Plan
