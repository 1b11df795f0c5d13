-- ===== src/Wa/Proto.antt =====
-- apps/daemon/wa/session.go, toProtoMessage and statusToProto: what the clients get of a message.
use zchat.Prelude.{
  ℕ, String, ◌≡◌, refl, sym, ap, ◌∙◌, Bool, Option, none, some, List, [], ◌==◌, if◌then◌else◌,
}
use zchat.Prelude.Int.{ℤ}
use zchat.Store.Types.{
  Message, Media, Quoted, status_pending, status_sent, status_delivered, status_read, status_failed,
}

-- zchatv1.MessageStatus
pub data MessageStatus : Type 0 where
  unspecified pending sent delivered read failed : MessageStatus

-- zchatv1.MediaInfo
pub record MediaInfo : Type 0 where
  pub mime : String
  pub size : ℤ
  pub filename : String
  pub caption : String
  pub path : String
  pub thumbnail : List ℕ
  pub width : ℤ
  pub height : ℤ
  pub duration : ℤ

-- zchatv1.Message, without `reactions`, which toProtoMessage leaves unset. zchatv1.QuotedMessage has
-- the fields of the store's struct.
pub record ProtoMessage : Type 0 where
  pub id : String
  pub chat_jid : String
  pub sender : String
  pub sender_name : String
  pub body : String
  pub type : String
  pub timestamp : ℤ
  pub outgoing : Bool
  pub status : MessageStatus
  pub forwarded : Bool
  pub reaction : String
  pub media : Option MediaInfo
  pub quoted : Option Quoted

-- statusToProto
unfoldable pub status_to_proto : String → MessageStatus
status_to_proto s =
    if s == status_pending
    then pending
    else if s == status_sent
    then sent
    else if s == status_delivered
    then delivered
    else if s == status_read
    then read
    else if s == status_failed
    then failed
    else unspecified

abbrev pub media_info : Option Media → Option MediaInfo
media_info none = none
media_info (some m) = some (record {
  mime = m.mime;
  size = m.size;
  filename = m.filename;
  caption = m.caption;
  path = m.path;
  thumbnail = m.thumbnail;
  width = m.width;
  height = m.height;
  duration = m.duration;
})

abbrev pub quoted_message : Option Quoted → Option Quoted
quoted_message none = none
quoted_message (some q) = some (record {
  id = q.id;
  sender = q.sender;
  sender_name = q.sender_name;
  body = q.body;
  type = q.type;
})

-- toProtoMessage
unfoldable pub to_proto_message : Message → ProtoMessage
to_proto_message m = record {
  id = m.fields.id;
  chat_jid = m.fields.chat_jid;
  sender = m.fields.sender;
  sender_name = m.fields.sender_name;
  body = m.fields.body;
  type = m.fields.type;
  timestamp = m.fields.timestamp;
  outgoing = m.fields.outgoing;
  status = status_to_proto m.fields.status;
  forwarded = m.fields.forwarded;
  reaction = m.fields.reaction;
  media = media_info m.media;
  quoted = quoted_message m.quoted;
}

-- The stored text of a status; none is stored for `unspecified`.
abbrev pub status_text : MessageStatus → String
status_text unspecified = ""
status_text pending = status_pending
status_text sent = status_sent
status_text delivered = status_delivered
status_text read = status_read
status_text failed = status_failed

-- An attachment as a client can know it: the message that it belongs to, and no WhatsApp payload.
abbrev pub received_media : String → Option MediaInfo → Option Media
received_media id none = none
received_media id (some m) = some (record {
  message_id = id;
  path = m.path;
  mime = m.mime;
  size = m.size;
  filename = m.filename;
  caption = m.caption;
  thumbnail = m.thumbnail;
  width = m.width;
  height = m.height;
  duration = m.duration;
  payload = [];
})

-- The message as a client can put it together.
abbrev pub received : ProtoMessage → Message
received p = record {
  fields = record {
    id = p.id;
    chat_jid = p.chat_jid;
    sender = p.sender;
    sender_name = p.sender_name;
    body = p.body;
    type = p.type;
    timestamp = p.timestamp;
    outgoing = p.outgoing;
    status = status_text p.status;
    forwarded = p.forwarded;
    reaction = p.reaction;
  };
  media = received_media p.id p.media;
  quoted = p.quoted;
}

-- An attachment without its payload, under the id of its message.
abbrev pub public_media : String → Option Media → Option Media
public_media id none = none
public_media id (some m) = some (record m { message_id = id; payload = [] })

media_info_lem :
    (id : String) (o : Option Media) → received_media id (media_info o) ≡ public_media id o
media_info_lem id none = refl
media_info_lem id (some m) = refl

quoted_message_lem : (o : Option Quoted) → quoted_message o ≡ o
quoted_message_lem none = refl
quoted_message_lem (some q) = refl

status_to_proto_lem :
    (k : MessageStatus) → status_text (status_to_proto (status_text k)) ≡ status_text k
unfolding status_to_proto
status_to_proto_lem unspecified = refl
status_to_proto_lem pending = refl
status_to_proto_lem sent = refl
status_to_proto_lem delivered = refl
status_to_proto_lem read = refl
status_to_proto_lem failed = refl

-- A client can put a message with one of the five statuses, or with none, together again from what
-- it gets, with all its fields, its quotation and its attachment, the payload of the attachment
-- excepted.
pub received-to_proto_message :
    (m : Message) (k : MessageStatus)
    → m.fields.status ≡ status_text k
    → received (to_proto_message m) ≡ record m { media = public_media m.fields.id m.media }
unfolding to_proto_message
received-to_proto_message m k h =
    ap (whole (media_info m.media) (quoted_message m.quoted))
      (ap (λ (s : String). status_text (status_to_proto s)) h ∙ status_to_proto_lem k ∙ sym h)
    ∙ ap (λ (o : Option Media). record m { media = o; quoted = quoted_message m.quoted })
        (media_info_lem m.fields.id m.media)
    ∙ ap (λ (o : Option Quoted). record m { media = public_media m.fields.id m.media; quoted = o })
        (quoted_message_lem m.quoted)
  where
    whole : Option MediaInfo → Option Quoted → String → Message
    whole o q s = record {
      fields = record m.fields { status = s };
      media = received_media m.fields.id o;
      quoted = q;
    }
