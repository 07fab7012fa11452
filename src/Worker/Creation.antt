-- ===== src/Worker/Creation.antt =====
-- worker/BackupWorker::create.
use web_cloud_disk.Base.{not, success, fail, if◌then◌else◌}
use web_cloud_disk.Flow.{answer, call}
use web_cloud_disk.Backend.{Task, open_channel, declare_queue, basic_consume_start}
use web_cloud_disk.Config.Types.{RabbitMq}
use web_cloud_disk.Messaging.Publisher.{channel_options}

abbrev pub failed_to_initialize : Task (Unit {0})
failed_to_initialize = answer (fail 500 "Failed to initialize RabbitMQ backup worker")

unfoldable pub create_worker : RabbitMq → Task (Unit {0})
create_worker config = call (open_channel (channel_options config)) λ opened.
    if not opened
    then failed_to_initialize
    else call (declare_queue config.queue) λ declared.
      if not declared
      then failed_to_initialize
      else call (basic_consume_start config.queue)
          λ consuming. if not consuming then failed_to_initialize else answer (success tt)
