-- ===== src/MessageHandler/Factory.antt =====
-- The factory as a map from type names to builders.
use network_application.Base.{◌≡◌, Bytes, some, if◌then◌else◌, str_eq, Bool-cases, inl, inr}
use network_application.Base.Table.{lookup-insert, bytes_eq}
use network_application.Json.{Value}
use network_application.Message.{Transaction}
use network_application.MessageHandler.{
  Builder, CreatorMessage, create_message, add_message_on_map, build,
}

-- After addMessageOnMap(t, f) the type t is built by f, and every other type as before.
pub create_message-add_message_on_map :
    (c : CreatorMessage) (t : Bytes) (f : Builder) (u : Bytes) (x : Transaction) (jv : Value)
    → create_message (add_message_on_map c t f).0 u x jv
      ≡ (if str_eq t u then build (some f) u x jv else create_message c u x jv)
unfolding create_message add_message_on_map
create_message-add_message_on_map c t f u x jv = elim (Bool-cases (str_eq t u)) [
  | inl h ↦ rw (lookup-insert t u f c.factory, h)
  | inr h ↦ rw (lookup-insert t u f c.factory, h)
]
