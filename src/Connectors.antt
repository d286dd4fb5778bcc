-- ===== src/Connectors.antt =====
-- services/connector-hub: the rows of its schemas `vault` and `sync` (src/db/schema), and the
-- providers (vault.types.ts). A text that is only compared is a number; a text that the code reads
-- into is the list of its code points. A time is in milliseconds.
pub mod InvoiceNumbers
pub mod Vault
pub mod Webhooks
pub mod Resilience
pub mod Sepay
pub mod Zalo
mod Tests
use solodesk.Prelude.{ℕ, Bool, Option, none, some, List, ◌==◌}
use solodesk.Prelude.Int.{ℤ}
use solodesk.Money.{Text}

pub data Provider : Type 0 where
  sepay zalo ghn shopee tiktok_shop lazada ghtk viettelpost misa_meinvoice : Provider
  viettel_sinvoice vnpt_invoice booking_com agoda national_free_platform : Provider

-- The place of a provider in CONNECTOR_PROVIDERS, for its text.
abbrev pub catalog_index : Provider → ℕ
catalog_index sepay = 0
catalog_index zalo = 1
catalog_index ghn = 2
catalog_index shopee = 3
catalog_index tiktok_shop = 4
catalog_index lazada = 5
catalog_index ghtk = 6
catalog_index viettelpost = 7
catalog_index misa_meinvoice = 8
catalog_index viettel_sinvoice = 9
catalog_index vnpt_invoice = 10
catalog_index booking_com = 11
catalog_index agoda = 12
catalog_index national_free_platform = 13

abbrev pub same_provider : Provider → Provider → Bool
same_provider p q = catalog_index p == catalog_index q

-- What AES-256-GCM makes of a payload; the ciphertext is a list of bytes.
pub record EncryptedPayload : Type 0 where
  pub ciphertext : Text
  pub iv : ℕ
  pub auth_tag : ℕ

pub record Credential : Type 0 where
  pub id : ℕ
  pub tenant : ℕ
  pub provider : Provider
  pub encrypted : EncryptedPayload
  pub is_active : Bool
  pub last_verified_at : Option ℕ
  pub last_verification_ok : Option Bool
  pub updated_at : ℕ

-- The token in a webhook's path, which may be no uuid.
pub data PathToken : Type 0 where
  uuid : ℕ → PathToken
  no_uuid : PathToken

pub record WebhookToken : Type 0 where
  pub token : ℕ
  pub tenant : ℕ
  pub provider : Provider

-- `transactionDate` and `luc`: absent or empty, a Vietnamese wall-clock reading (as milliseconds
-- from 1970), or a text that `new Date` does not read.
pub data DateText : Type 0 where
  undated malformed : DateText
  wall_clock : ℕ → DateText

-- The fields that the SePay controller reads. An absent field is `none`, and so is an empty `id`;
-- an empty `referenceCode` is not among the inputs of the model.
pub record SepayBody : Type 0 where
  pub id : Option ℕ
  pub transaction_date : DateText
  pub is_incoming : Bool
  pub content : Text
  pub transfer_amount : Option ℤ
  pub reference_code : Option ℕ

-- A field of a body as `String` reads it: absent (or null), the empty text, or another.
pub data Given : Type 0 where
  absent blank : Given
  given : ℕ → Given

-- The fields that the Zalo controller reads; an absent text is empty.
pub record ZaloBody : Type 0 where
  pub message_id : Given
  pub ma_nguoi_dung : Given
  pub noi_dung : Text
  pub khach : Text
  pub luc : DateText

pub data Payload : Type 0 where
  sepay_body : SepayBody → Payload
  zalo_body : ZaloBody → Payload

pub data EventType : Type 0 where
  payment_received message_received : EventType

pub record WebhookEvent : Type 0 where
  pub id : ℕ
  pub tenant : ℕ
  pub provider : Provider
  pub provider_event_id : ℕ
  pub event_type : EventType
  pub occurred_at : ℕ
  pub received_at : ℕ
  pub payload : Payload
  pub forwarded_at : Option ℕ

pub record Hub : Type 0 where
  pub credentials : List Credential
  pub tokens : List WebhookToken
  pub events : List WebhookEvent
