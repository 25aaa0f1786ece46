-- ===== src/Saas.antt =====
-- apps/system/saas: the services of services.py over the models of models.py. Tables are dicts by key
-- or lists of rows in the order that the code asks for.
mod Config
mod Flags
mod Tenants
