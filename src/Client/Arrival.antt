-- ===== src/Client/Arrival.antt =====
-- What a client serializes, as the server's handler reads it.
use Prim.Native.String.{String}
use inf.Base.{
  List, Outcome, Str, arith, eq_str, eq_ℕ, if◌then◌else◌, inl, inr, nat_eq, ok, refl, some, ℕ, ◌%◌,
  ◌^◌, ◌≡◌, ◌⊎◌,
}
use inf.Client.Message.{
  ClientMessageData, ClientMsgPayload, ClientMsgType, client_follow, client_login, client_logout,
  client_members, client_payload_members, client_send, client_type_number, serialize_client_message,
}
use inf.Server.Connections.{Address, eq_address, get_user_id_from_address}
use inf.Server.Handler.{
  ClientMessageHandler, Handled, follow_username, handle_follow_command, handle_incoming_datagram,
  handle_login, handle_logout, handle_send_command, login, send_message,
}
use inf.Server.Message.{ServerAction, ServerMsgPayload}
use inf.Shared.Ids.{invalid_user_id}
use inf.Shared.Json.{IsPlain, Json, RoundTrips}
use inf.Shared.Memory.{read_c_string}

module _ (J : Json) (R : RoundTrips J) (uninitialised : ServerMsgPayload) where
  -- The handler for a message of this type with this text, for the address that it came from.
  abbrev pub handled_as :
      ClientMsgType → Str → ClientMessageHandler → List ServerAction → ℕ → Address → Outcome Handled
  handled_as client_login text h acts now a = login uninitialised h acts text a
  handled_as client_logout text h acts now a = handle_logout h acts a
  handled_as client_send text h acts now a =
      let user_id = get_user_id_from_address h.connection_manager a in
      if nat_eq user_id invalid_user_id
      then ok (h, acts)
      else send_message uninitialised h acts now user_id text
  handled_as client_follow text h acts now a =
      let user_id = get_user_id_from_address h.connection_manager a in
      if nat_eq user_id invalid_user_id
      then ok (h, acts)
      else follow_username uninitialised h acts user_id text

  abbrev value_of : ClientMessageData → J.Value
  value_of m = RoundTrips.parsed R (client_members m)

  abbrev message : ℕ → ClientMsgType → ClientMsgPayload → ClientMessageData
  message i ty p = record { msg_id = i; msg_type = ty; payload = p }

  -- The key that the handler of a type looks its text up under.
  abbrev text_key : ClientMsgType → String
  text_key client_send = "send"
  text_key _ = "username"

  -- What the server looks up in a message. A logout has no text.
  record IsRead (i : ℕ) (ty : ClientMsgType) (p : ClientMsgPayload) : Type 0 where
    id_read : J.as_int (value_of (message i ty p)) "msg_id" ≡ ok (i % 2 ^ 32)
    type_read : J.as_int (value_of (message i ty p)) "msg_type" ≡ ok (client_type_number ty)
    text_read :
        (ty ≡ client_logout)
        ⊎ (J.as_string (value_of (message i ty p)) (text_key ty) ≡ ok (read_c_string p 0))

  message-IsRead :
      (i : ℕ) (ty : ClientMsgType) (p : ClientMsgPayload)
      → IsPlain (client_members (message i ty p))
      → IsRead i ty p
  unfolding client_members client_payload_members
  message-IsRead i client_logout p plain = record {
    id_read = R.int_member _ "msg_id" i plain refl;
    type_read = R.int_member _ "msg_type" (client_type_number client_logout) plain refl;
    text_read = inl refl;
  }
  message-IsRead i client_login p plain = record {
    id_read = R.int_member _ "msg_id" i plain refl;
    type_read = R.int_member _ "msg_type" (client_type_number client_login) plain refl;
    text_read = inr (R.text_member _ "username" (read_c_string p 0) plain refl);
  }
  message-IsRead i client_follow p plain = record {
    id_read = R.int_member _ "msg_id" i plain refl;
    type_read = R.int_member _ "msg_type" (client_type_number client_follow) plain refl;
    text_read = inr (R.text_member _ "username" (read_c_string p 0) plain refl);
  }
  message-IsRead i client_send p plain = record {
    id_read = R.int_member _ "msg_id" i plain refl;
    type_read = R.int_member _ "msg_type" (client_type_number client_send) plain refl;
    text_read = inr (R.text_member _ "send" (read_c_string p 0) plain refl);
  }

  handled_lem :
      (i : ℕ) (ty : ClientMsgType) (p : ClientMsgPayload) (h : ClientMessageHandler)
      (acts : List ServerAction) (now : ℕ) (a : Address)
      → IsRead i ty p
      → handle_incoming_datagram J uninitialised h acts now (value_of (message i ty p)) a
        ≡ handled_as ty (read_c_string p 0) h acts now a
  unfolding handle_incoming_datagram handle_login handle_send_command handle_follow_command
  handled_lem i client_logout p h acts now a r = rw (r.id_read) (rw (r.type_read) refl)
  handled_lem i client_login p h acts now a r =
      rw (r.id_read)
        (rw (r.type_read) (elim r.text_read [ inl e ↦ absurd (ground arith) | inr e ↦ rw e refl ]))
  handled_lem i client_send p h acts now a r =
      rw (r.id_read)
        (rw (r.type_read) (elim r.text_read [ inl e ↦ absurd (ground arith) | inr e ↦ rw e refl ]))
  handled_lem i client_follow p h acts now a r =
      rw (r.id_read)
        (rw (r.type_read) (elim r.text_read [ inl e ↦ absurd (ground arith) | inr e ↦ rw e refl ]))

  -- If jsoncpp reads back the ASCII that it writes, and the text of a client's message is ASCII,
  -- what the client writes is parsed, whatever stands behind it in the buffer, and is handled at
  -- the server as the message's type says, with the text of its payload.
  pub client_message_lem :
      (m : ClientMessageData)
      → IsPlain (client_members m)
      → (h : ClientMessageHandler) (acts : List ServerAction) (now : ℕ) (a : Address)
      → (v : J.Value) × ((behind : Str) → J.parse (serialize_client_message J m) behind ≡ some v)
        × (handle_incoming_datagram J uninitialised h acts now v a
            ≡ handled_as m.msg_type (read_c_string m.payload 0) h acts now a)
  client_message_lem m plain h acts now a = (
    value_of m,
    λ behind. R.parse_write (client_members m) behind plain,
    handled_lem m.msg_id m.msg_type m.payload h acts now a
        (message-IsRead m.msg_id m.msg_type m.payload plain),
  )
