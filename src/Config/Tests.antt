-- ===== src/Config/Tests.antt =====
-- The checks under the BSP's settings of 1000 Hz and 8 priorities.
use zybo_rtos_sensor_aggrega.Prelude.{◌*◌, ◌/◌, ◌≡◌, refl, true, some, u32, arith}
use zybo_rtos_sensor_aggrega.Config.Asserts.{Kernel, builds, builds_lem}

abbrev bsp : Kernel
bsp = record {
  max_priorities = 8;
  idle_priority = 0;
  ms_to_ticks = λ ms. u32 (ms * 1000) / 1000;
  use_mutexes = some 1;
}

builds_lem_example : builds bsp ≡ true
builds_lem_example = builds_lem bsp 1000 (λ ms. refl) (omega arith)
