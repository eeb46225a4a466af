-- ===== src/Tests/Connection.antt =====
-- Calls of the writer's half with concrete packets, on a `Vec<u8>`.
use mcutt.Common.{◌≡◌, some, map}
use mcutt.Bytes.{Bytes}
use mcutt.Bytes.Vec.{vec_write}
use mcutt.External.Reference.{zerocopy, bitflags, memchr}
use mcutt.Fields.PacketId
use mcutt.Fields.TopicFilter.Write.{read_back}
use mcutt.Packets.Publish
use mcutt.Packets.Publish.RoundTrip.{Same}
use mcutt.Packets.Subscribe
use mcutt.Packets.Subscribe.{Subscribe, filters}
use mcutt.Packets.Unsubscribe
use mcutt.Packets.Unsubscribe.{Unsubscribe, filters as unsubscribe_filters}
use mcutt.Tests.Messages.{message, message-IsSendable}
use mcutt.Tests.Subscriptions.{two_filters, two_filters-IsSendable}
use mcutt.Tests.Unsubscriptions.{two_topics, two_topics-IsSendable}
use mcutt.Sync.Writer.{publish, subscribe, unsubscribe}
use mcutt.Sync.Writer.Sends.{SendsPacket, messages-SendsPacket}

messages-SendsPacket_example :
    SendsPacket {W = Bytes} (publish message) Publish.parse (Same message)
    × SendsPacket {W = Bytes} (subscribe two_filters) Subscribe.parse (λ (this : Subscribe).
      (PacketId.read this.pkid ≡ some 10)
      × (filters this ≡ some (map read_back two_filters.filters)))
    × SendsPacket {W = Bytes} (unsubscribe two_topics) Unsubscribe.parse (λ (this : Unsubscribe).
      (PacketId.read this.pkid ≡ some 11)
      × (unsubscribe_filters this ≡ some (map Unsubscribe.RoundTrip.read_back two_topics.filters)))
messages-SendsPacket_example =
    messages-SendsPacket message two_filters two_topics message-IsSendable two_filters-IsSendable
      two_topics-IsSendable
