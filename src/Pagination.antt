-- ===== src/Pagination.antt =====
-- framework/drf/pagination/base.py: the paginators. A queryset is the list of its rows in the order in
-- which the database gives them; links are the numbers or the cursor that they carry.
mod Pages
mod Bounds
mod Cover
mod Cursor
mod Text
mod Walk
mod Follow
mod Ties
mod Strokes
mod Examples
