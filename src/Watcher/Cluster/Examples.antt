-- ===== src/Watcher/Cluster/Examples.antt =====
-- A creator who sends to one wallet, which another wallet funded.
use tripwire_launch_auditor.Prelude.{◌≡◌, Option, some, List, [], ◌∷◌}
use tripwire_launch_auditor.Hex.{Hex, to_lower_case}
use tripwire_launch_auditor.Watcher.Retry.{value}
use tripwire_launch_auditor.Watcher.Cluster.{
  direct_transfer, holds_member, TransferLog, topic_to_address, given, build_creator_cluster,
}
use tripwire_launch_auditor.Watcher.Cluster.Members.{belongs, build_creator_cluster-belongs}

abbrev maker : Hex
maker = 48 ∷ 120 ∷ 65 ∷ []

abbrev pool : Hex
pool = 48 ∷ 120 ∷ 66 ∷ []

abbrev wallet_topic : Hex
wallet_topic = 67 ∷ []

abbrev gifts : List TransferLog
gifts = record { recipient_topic = some wallet_topic; transaction_hash = 49 ∷ [] } ∷ []

abbrev funder : Hex → Option Hex
funder h = some pool

build_creator_cluster-belongs_example :
    holds_member
      (topic_to_address wallet_topic)
      direct_transfer
      (build_creator_cluster funder maker pool (value []) (value gifts)).members
    ≡ belongs funder
        (to_lower_case maker)
        (to_lower_case pool)
        []
        gifts
        (topic_to_address wallet_topic)
        direct_transfer
unfolding given
build_creator_cluster-belongs_example =
    build_creator_cluster-belongs funder maker pool (value []) (value gifts)
      (topic_to_address wallet_topic) direct_transfer
