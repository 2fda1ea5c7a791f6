-- ===== src/Api/Depth.antt =====
-- Suspensions are counted (src/sched/api.c).
use rtai.Kernel.{Kernel}
