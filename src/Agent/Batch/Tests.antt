-- ===== src/Agent/Batch/Tests.antt =====
-- Batches at the small agent.
use esnet_smartnic_fw.Base.{ℕ, ◌≡◌, refl, false, [], ◌∷◌, ◌++◌, none, some}
use esnet_smartnic_fw.Agent.Errors.{ErrorCode}
use esnet_smartnic_fw.Agent.Effect.{◌>>◌, write}
use esnet_smartnic_fw.Agent.Messages.{BatchOperation}
use esnet_smartnic_fw.Agent.Server.{Timespec}
use esnet_smartnic_fw.Agent.Batch.{
  RequestItem, ResponseItem, BatchRequest, Context, dispatch, batch,
}
use esnet_smartnic_fw.Agent.Batch.Laws.{
  supports, refusal, Echo, dispatch-refused, dispatch-echoes, batch-++,
}
use esnet_smartnic_fw.Agent.Example.{
  Log, example_driver, example_library, example_regex, devices, initial,
}

abbrev zero_time : Timespec
zero_time = record { tv_sec = 0; tv_nsec = 0 }

abbrev context : Context ℕ ℕ ℕ ℕ Log ℕ ℕ
context = record {
  driver = example_driver;
  library = example_library;
  regex = example_regex;
  fuel = 5;
  devices = devices;
  get_device_info = λ n. write n;
  start_wall = zero_time;
  start_mono = zero_time;
  now = none;
}

abbrev bad_insert : BatchRequest ℕ
bad_insert = record { op = BatchOperation.insert; item = RequestItem.device_info 3 }

abbrev get_device : BatchRequest ℕ
get_device = record { op = BatchOperation.get; item = RequestItem.device_info 3 }

device_insert : supports {D = ℕ} (RequestItem.device_info 3) BatchOperation.insert ≡ false
unfolding supports
device_insert = refl

dispatch-refused_example :
    dispatch context (RequestItem.device_info 3) BatchOperation.insert initial
    ≡ some (
      initial,
      record {
        error_code = refusal {D = ℕ} (RequestItem.device_info 3);
        op = BatchOperation.insert;
        item = ResponseItem.not_set;
      }
          ∷ [],
      tt,
    )
dispatch-refused_example =
    dispatch-refused context (RequestItem.device_info 3) BatchOperation.insert initial device_insert

get_device-run :
    dispatch context (RequestItem.device_info 3) BatchOperation.get initial
    ≡ some (
      initial,
      record {
        error_code = ErrorCode.ok;
        op = BatchOperation.get;
        item = ResponseItem.device_info 3;
      }
          ∷ [],
      tt,
    )
unfolding dispatch
get_device-run = refl

dispatch-echoes_example : Echo {D = ℕ} BatchOperation.get (
    record { error_code = ErrorCode.ok; op = BatchOperation.get; item = ResponseItem.device_info 3 }
    ∷ [])
dispatch-echoes_example =
    dispatch-echoes context (RequestItem.device_info 3) BatchOperation.get initial initial _ tt
      get_device-run

batch-++_example :
    batch context ((bad_insert ∷ []) ++ get_device ∷ []) initial
    ≡ (batch context (bad_insert ∷ []) >> batch context (get_device ∷ [])) initial
batch-++_example = batch-++ context (bad_insert ∷ []) (get_device ∷ []) initial
