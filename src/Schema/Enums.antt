-- ===== src/Schema/Enums.antt =====
-- The enumerations of apps/api/prisma/schema.prisma.

pub data Role : Type 0 where
  owner agent : Role

pub data ChannelType : Type 0 where
  whatsapp instagram : ChannelType

pub data ConversationStatus : Type 0 where
  opened resolved snoozed : ConversationStatus

pub data MessageDirection : Type 0 where
  inbound outbound : MessageDirection

pub data DeliveryStatus : Type 0 where
  queued sending sent delivered read failed : DeliveryStatus

pub data ProcessingStatus : Type 0 where
  pending processed failed : ProcessingStatus
