-- ===== src/Schema/Rows.antt =====
-- The tables of apps/api/prisma/schema.prisma, one record for a row. An id (a cuid) is a number, of
-- which the code uses only equality; a time of the server's clock is its milliseconds.
use unified_inbox.Prelude.{ℕ, String, Bool, Option, List}
use unified_inbox.Prelude.Int.{Date}
use unified_inbox.Json.{Json}
use unified_inbox.Schema.Enums.{
  Role, ChannelType, ConversationStatus, MessageDirection, DeliveryStatus, ProcessingStatus,
}

pub record Organization : Type 0 where
  pub id : ℕ
  pub name : String
  pub slug : String

pub record User : Type 0 where
  pub id : ℕ
  pub email : String
  pub name : String
  pub password_hash : Option String
  pub session_version : ℕ
  pub email_verified_at : Option ℕ

pub record Membership : Type 0 where
  pub id : ℕ
  pub role : Role
  pub organization_id : ℕ
  pub user_id : ℕ
  pub created_at : ℕ

pub record Channel : Type 0 where
  pub id : ℕ
  pub channel_type : ChannelType
  pub name : String
  pub external_id : Option String
  pub organization_id : ℕ

pub record Conversation : Type 0 where
  pub id : ℕ
  pub status : ConversationStatus
  pub contact_name : String
  pub contact_phone : Option String
  pub external_thread_id : Option String
  pub last_message_at : Option ℕ
  pub last_message_text : Option String
  pub is_unread : Bool
  pub organization_id : ℕ
  pub channel_id : ℕ
  pub assigned_membership_id : Option ℕ

pub record Message : Type 0 where
  pub id : ℕ
  pub direction : MessageDirection
  pub body : String
  pub provider_message_id : Option String
  pub delivery_status : Option DeliveryStatus
  pub delivery_status_updated_at : Option Date
  pub provider_error : Option String
  pub sent_at : Option Date
  pub delivered_at : Option Date
  pub read_at : Option Date
  pub failed_at : Option Date
  pub conversation_id : ℕ
  pub sender_id : Option ℕ
  pub created_at : ℕ

pub record Invitation : Type 0 where
  pub id : ℕ
  pub email : String
  pub role : Role
  pub token_hash : String
  pub expires_at : ℕ
  pub accepted_at : Option ℕ
  pub revoked_at : Option ℕ
  pub organization_id : ℕ
  pub created_by_membership_id : ℕ
  pub created_at : ℕ

-- `PasswordResetToken` and `EmailVerificationToken`, which have the same columns.
pub record AuthToken : Type 0 where
  pub id : ℕ
  pub token_hash : String
  pub expires_at : ℕ
  pub used_at : Option ℕ
  pub invalidated_at : Option ℕ
  pub user_id : ℕ

pub record Note : Type 0 where
  pub id : ℕ
  pub body : String
  pub conversation_id : ℕ
  pub author_id : ℕ
  pub created_at : ℕ

pub record Tag : Type 0 where
  pub id : ℕ
  pub name : String
  pub organization_id : ℕ

pub record ConversationTag : Type 0 where
  pub conversation_id : ℕ
  pub tag_id : ℕ
  pub created_at : ℕ

-- A value of an audit log's `metadata`.
pub data Detail : Type 0 where
  text : String → Detail
  ref : ℕ → Detail
  role : Role → Detail
  provider : ChannelType → Detail
  nothing : Detail

pub record AuditLog : Type 0 where
  pub action : String
  pub target_id : Option ℕ
  pub metadata : List (String × Detail)
  pub organization_id : ℕ
  pub actor_id : ℕ

pub record ChannelAccount : Type 0 where
  pub id : ℕ
  pub provider : ChannelType
  pub external_account_id : String
  pub display_phone_number : Option String
  pub waba_id : Option String
  pub access_token : String
  pub organization_id : ℕ
  pub created_at : ℕ

pub record RawWebhookEvent : Type 0 where
  pub id : ℕ
  pub provider : ChannelType
  pub provider_message_id : String
  pub external_account_id : String
  pub payload : Json
  pub processing_status : ProcessingStatus
  pub processed_at : Option ℕ
  pub error : Option String
  pub organization_id : ℕ
