-- ===== src/Messaging/Publisher.antt =====
-- messaging/RabbitMqBackupTaskPublisher: publishing a task to the queue that the publisher was made
-- for. An exception of the broker's client is the reply `false`.
use web_cloud_disk.Base.{Bytes, not, success, fail, if◌then◌else◌}
use web_cloud_disk.Flow.{answer, call, ◌>>=◌}
use web_cloud_disk.Backend.{Task, ChannelOptions, basic_publish, open_channel, declare_queue}
use web_cloud_disk.Config.Types.{RabbitMq}
use web_cloud_disk.Messaging.Json.{JsonLibrary}
use web_cloud_disk.Messaging.BackupTask.{BackupTask, serialize_backup_task}

-- The options of `create`, also those of the worker's.
unfoldable pub channel_options : RabbitMq → ChannelOptions
channel_options config = record {
  host = config.host;
  port = config.port;
  vhost = config.vhost;
  username = config.username;
  password = config.password;
}

-- `create`: the publisher is the queue's name.
unfoldable pub create : RabbitMq → Task Bytes
create config = call (open_channel (channel_options config)) λ opened.
    if not opened
    then answer (fail 500 "Failed to initialize RabbitMQ backup publisher")
    else call (declare_queue config.queue) λ declared.
      if not declared
      then answer (fail 500 "Failed to initialize RabbitMQ backup publisher")
      else answer (success config.queue)

module _ {J : Type 0} (json : JsonLibrary J) where
  unfoldable pub publish : Bytes → BackupTask → Task (Unit {0})
  publish queue task = do
    body ← answer (serialize_backup_task json task)
    call (basic_publish queue body task.hashcode) λ sent.
        if sent then answer (success tt) else answer (fail 500 "Failed to publish OSS backup task")
