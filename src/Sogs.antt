-- ===== src/Sogs.antt =====
-- libsession-ui-core/src/sogs_api/message.rs: what a community server sends.
use session_cli.Base.{ℕ, Bool, List, Option, Result, ok, err}
use session_cli.Base.Int.{ℤ}
use session_cli.Base.Text.{Text}

-- `MessageReaction`; the reactors are session ids as text.
pub record MessageReaction : Type 0 where
  pub index : ℤ
  pub count : ℕ
  pub reactors : List Text
  pub you : Bool

-- `payload` is the field `data` of the source, and a `HashMap` is the list of its entries.
pub record Message {ℓ} (D : Type ℓ) : Type ℓ where
  pub id : ℕ
  pub sender_id : Text
  pub posted : ℕ
  pub edited : Option ℕ
  pub seqno : ℤ
  pub whisper : Bool
  pub whisper_mods : Bool
  pub whisper_to : Option Text
  pub payload : D
  pub signature : Option Text
  pub reaction_by_emoji : List (Text × MessageReaction)

pub record Delete : Type 0 where
  pub id : ℕ
  pub seqno : ℤ

pub data MessageOrDelete {ℓ} (D : Type ℓ) : Type ℓ where
  deleted : Delete → MessageOrDelete D
  message : Message D → MessageOrDelete D

unfoldable pub seqno {ℓ} : {D : Type ℓ} → MessageOrDelete D → ℤ
seqno (deleted d) = d.seqno
seqno (message m) = m.seqno

-- The message with its data replaced.
abbrev pub with_payload {ℓ κ} : {D : Type ℓ} {D' : Type κ} → Message D → D' → Message D'
with_payload m p = record {
  id = m.id;
  sender_id = m.sender_id;
  posted = m.posted;
  edited = m.edited;
  seqno = m.seqno;
  whisper = m.whisper;
  whisper_mods = m.whisper_mods;
  whisper_to = m.whisper_to;
  payload = p;
  signature = m.signature;
  reaction_by_emoji = m.reaction_by_emoji;
}

unfoldable pub map_data {ℓ κ μ} :
    {D : Type ℓ} {D' : Type κ} {E : Type μ}
    → (D → Result E D')
    → MessageOrDelete D
    → Result E (MessageOrDelete D')
map_data f (deleted d) = ok (deleted d)
map_data f (message m) = elim (f m.payload) [
  | ok p ↦ ok (message (with_payload m p))
  | err e ↦ err e
]
