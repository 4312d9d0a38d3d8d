-- ===== src/Master/Tests.antt =====
-- A first call of `event_master_init`.
use libcn.Prelude.{◌≡◌, refl, Ptr, true, Option, some, arith}
use package.libcn.Master.{Statics, event_master_init}
use package.libcn.Master.Layout.{Laid, event_master_init-Laid}

abbrev statics : Statics
statics = record {
  timer_resolution = 0;
  accept_mutex_ptr = 0;
  accept_mutex = record { lock = 0; spin = 0 };
  connection_counter = 8;
  stat_accepted = 16;
  stat_handled = 24;
  stat_requests = 32;
  stat_active = 40;
  stat_reading = 48;
  stat_writing = 56;
  stat_waiting = 64;
  words = λ a. 0;
}

event_master_init-Laid_example :
    (v : Statics) × (event_master_init true 500 (some 4096) statics ≡ (true, v))
    × Laid 4096 statics v
    × ((again : Ptr) (mapped : Option Ptr) → event_master_init true again mapped v ≡ (true, v))
event_master_init-Laid_example =
    event_master_init-Laid 500 4096 statics (λ e. ground arith) (λ e. ground arith) (omega arith)
      refl
