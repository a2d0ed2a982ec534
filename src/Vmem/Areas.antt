-- ===== src/Vmem/Areas.antt =====
-- The areas that `vmem_alloc_pages` and `vmem_free_pages` of mm/vmem.c add and take away.
use heaven_os.Vmem.Space.{Space}
