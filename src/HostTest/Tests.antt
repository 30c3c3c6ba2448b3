-- ===== src/HostTest/Tests.antt =====
-- The random test from its own seed.
use zybo_rtos_sensor_aggrega.Prelude.{◌≡◌, refl, List, replicate}
use zybo_rtos_sensor_aggrega.Sample.{SensorRecord, zero_record}
use zybo_rtos_sensor_aggrega.Fixtures.{waiting_ring}
use zybo_rtos_sensor_aggrega.HostTest.{Checks, next_rand, random_test}
use zybo_rtos_sensor_aggrega.HostTest.Passes.{random_test-passes}

abbrev eight : List SensorRecord
eight = replicate 8 zero_record

abbrev none_run : Checks
none_run = record { run = 0; failed = 0 }

-- The first number of `s_rand_state`'s seed: 12345 * 1103515245 + 12345 modulo 2^32, shifted by 8.
first_rand : next_rand 12345 ≡ (13884438, 3554416254)
unfolding next_rand
first_rand = refl

random_test-passes_example :
    (random_test waiting_ring eight eight 12345 200_000 none_run).checks.failed ≡ 0
random_test-passes_example =
    random_test-passes waiting_ring eight eight 12345 200_000 none_run refl refl
