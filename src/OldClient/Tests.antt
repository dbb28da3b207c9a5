-- ===== src/OldClient/Tests.antt =====
-- The theorems on `CRabbitmqClient`, applied to a broker that delivers.
use rundo_dahua_sdk_edge.Common.{false, [], str_eq}
use rundo_dahua_sdk_edge.Mq.Tests.{broker}
use rundo_dahua_sdk_edge.OldClient.{CRabbitmqClient}
use rundo_dahua_sdk_edge.OldClient.Consume.{consumer}
use rundo_dahua_sdk_edge.OldClient.Settled.{Settles, consumer-Settles}

abbrev client : CRabbitmqClient
client = record {
  consumer = false;
  hostname = "";
  port = 5672;
  user = "";
  passwd = "";
  sock = 6;
  conn = 5;
  serial_num = "";
}

consumer-Settles_example :
    let r = consumer broker (λ c. 2) (λ s. str_eq s "mine") "q" 2 3 client [] in
    Settles broker (λ s. str_eq s "mine") [] r.calls r.received
consumer-Settles_example = consumer-Settles broker (λ c. 2) (λ s. str_eq s "mine") "q" 2 3 client []
