-- ===== src/Message.antt =====
-- src/message.h and src/message.c: the message that services exchange.
use service_lua.Base.{ℕ, List, [], ◌∷◌, if◌then◌else◌, ◌==◌}

-- `struct message`. `type` is the bit pattern of an int; `msg` is an address, 0 for NULL.
pub record Message : Type 0 where
  pub from : ℕ
  pub to : ℕ
  pub session : ℕ
  pub type : ℕ
  pub msg : ℕ
  pub sz : ℕ

-- What `calloc` leaves in a slot.
abbrev pub zero_message : Message
zero_message = record { from = 0; to = 0; session = 0; type = 0; msg = 0; sz = 0 }

-- `message_type_t`
pub data MessageType : Type 0 where
  system request response error signal : MessageType

abbrev pub code_of : MessageType → ℕ
code_of MessageType.system = 0
code_of MessageType.request = 1
code_of MessageType.response = 2
code_of MessageType.error = 3
code_of MessageType.signal = 4

-- `message_dispose` of a message that is there: the address that it frees, and the message left.
-- free(NULL) does nothing.
unfoldable pub message_dispose : Message → List ℕ × Message
message_dispose m = (if m.msg == 0 then [] else m.msg ∷ [], record m { msg = 0; sz = 0 })
