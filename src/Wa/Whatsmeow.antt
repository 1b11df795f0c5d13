-- ===== src/Wa/Whatsmeow.antt =====
-- The library go.mau.fi/whatsmeow, as far as apps/daemon/wa calls it: JIDs, the device store and
-- the protocol buffers. All of it is a parameter of the model.
use zchat.Prelude.{ℕ, String, Bool, List, Option}
use zchat.Prelude.Exec.{Result}
use zchat.Wa.Content.{WaMessage}

-- The servers of a JID that the program tells apart.
pub data Server : Type 0 where
  group_server default_user_server legacy_user_server hidden_user_server : Server
  broadcast_server other_server : Server

-- The names of types.ContactInfo.
pub record Contact : Type 0 where
  pub full_name : String
  pub business_name : String
  pub push_name : String
  pub first_name : String

-- A client comes with its device store. Of what fails otherwise the answer is none.
pub record Whatsmeow : Type 1 where
  pub Jid : Type 0
  -- types.ParseJID, String, ToNonAD, User, Server, IsEmpty, and NewJID on DefaultUserServer.
  pub parse_jid : String → Option Jid
  pub to_string : Jid → String
  pub to_non_ad : Jid → Jid
  pub user : Jid → String
  pub server : Jid → Server
  pub is_empty : Jid → Bool
  pub new_jid : String → Jid
  -- GetAltJID.
  pub alt_jid : Jid → Result Jid
  -- Contacts.GetContact: none for a contact that is not found, which is no error.
  pub contact : Jid → Result (Option Contact)
  -- Contacts.GetAllContacts, in the order of the range.
  pub contacts : Option (List (Jid × Contact))
  -- The name of GetGroupInfo.
  pub group_name : Jid → Result String
  -- The JID and the push name of the device.
  pub own_jid : Option Jid
  pub push_name : String
  -- proto.Marshal and proto.Unmarshal of a message.
  pub marshal : WaMessage → Option (List ℕ)
  pub unmarshal : List ℕ → Option WaMessage
