-- ===== src/Opennic/Metric/Tests.antt =====
-- Counters at a few rounds.
use esnet_smartnic_fw.Base.{ℕ, ◌+◌, ◌-◌, ◌^◌, ◌≡◌, refl, true, false, List, [], ◌∷◌, arith}
use esnet_smartnic_fw.Text.{text}
use esnet_smartnic_fw.Metrics.{SpecType}
use esnet_smartnic_fw.Opennic.Metric.{
  StatsMetricSpec, is_clear_on_read, label_value_index, register_value,
}
use esnet_smartnic_fw.Opennic.Metric.Counters.{
  Moment, run_rounds, readings, run_rounds-shown, run_rounds-added,
}

abbrev counter : ℕ → StatsMetricSpec
counter flags = record {
  name = text "rx";
  nelements = 2;
  labels = [];
  type = SpecType.counter;
  flags = flags;
  init_value = 7;
  io = record { offset = 0; size = 8; width = 0; shift = 0; invert = false };
}

keeps : is_clear_on_read (counter 0) ≡ false
unfolding is_clear_on_read
keeps = refl

reads : is_clear_on_read (counter 1) ≡ true
unfolding is_clear_on_read
reads = refl

-- A counter that wraps, is cleared, and goes on.
abbrev moments : List Moment
moments =
    record { do_clear = false; count = 2 ^ 64 + 5 }
    ∷ record { do_clear = true; count = 2 ^ 64 + 9 }
    ∷ record { do_clear = false; count = 2 ^ 64 + 20 }
    ∷ []

run_rounds-shown_example : run_rounds (counter 0) (readings moments) 12 (2 ^ 64 - 3) ≡ (18, 20)
run_rounds-shown_example =
    run_rounds-shown (counter 0) refl (omega arith) keeps moments 7 (2 ^ 64 - 8) (2 ^ 64 - 3)
      (omega arith) (omega arith)

run_rounds-added_example :
    run_rounds
      (counter 1)
      (record { do_clear = true; reading = 50 } ∷ record { do_clear = false; reading = 4 } ∷ [])
      12
      0
    ≡ (11, 0)
run_rounds-added_example =
    run_rounds-added (counter 1) refl (omega arith) reads
      (record { do_clear = true; reading = 50 } ∷ record { do_clear = false; reading = 4 } ∷ []) 12
      0

index_label :
    label_value_index (record { domain = []; zone = []; block = []; metric = []; idx = 107 })
    ≡ text "107"
unfolding label_value_index
index_label = refl

-- Ten bits from the sixth on.
field_of_register :
    register_value
      (record { offset = 0; size = 4; width = 10; shift = 6; invert = false })
      1023
      0xffff_0040
    ≡ 1
unfolding register_value
field_of_register = refl
