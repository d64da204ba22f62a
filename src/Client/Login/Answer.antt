-- ===== src/Client/Login/Answer.antt =====
-- What `try_login` makes of what the server does with its request.
use inf.Base.{
  Bool, List, Returns, Returns-bind, Returns-ok, Str, [], ap, arith, eq_str, eq_ℕ, false,
  if◌then◌else◌, inl, inr, length, ok, refl, replicate, some, subst, sym, true, ℕ, ◌++◌, ◌+◌, ◌<◌,
  ◌∙◌, ◌∷◌, ◌≡◌,
}
use inf.Client.Arrival.{client_message_lem, handled_as}
use inf.Client.Input.{request}
use inf.Client.Login.{LoginLine, login_request, login_successful, try_login}
use inf.Client.Login.Reply.{IsReplyType, bare_members, is_login_success, line_of, read_reply_lem}
use inf.Client.Message.{
  ClientMessageData, ClientMsgPayload, ClientMsgType, client_login, client_members,
  client_payload_members, client_payload_size, client_type_number, serialize_client_message,
}
use inf.Server.Connections.{Address, eq_address}
use inf.Server.Connections.Sessions.{owner}
use inf.Server.Handler.{ClientMessageHandler, Handled, handle_incoming_datagram, login}
use inf.Server.Handler.Invariant.{HasRoom, IsSound}
use inf.Server.Handler.LoginAnswer.{IsAnswered, IsLoginFailure, login_answered_lem}
use inf.Server.Loop.{Served, ServerMessage, dispatch, dispatch_action, serve_datagram}
use inf.Server.Loop.Dispatch.{dispatch_lem, messages}
use inf.Server.Message.{
  ServerMessageData, ServerMsgPayload, ServerMsgType, login_success, payload_size, serialize,
}
use inf.Server.Persistence.{get_user_id_from_username}
use inf.Shared.Buffer.{buffer_size, parse_buffer, parse_buffer_lem}
use inf.Shared.Json.{IsAscii, Json, Members, RoundTrips, int, string}
use inf.Shared.Memory.{c_string, read_c_string, strcpy, strcpy_reads}

-- What the server's listener clears before it reads.
abbrev pub cleared : List ℕ
cleared = replicate 511 0 ++ 0 ∷ []

-- What a login with this name sets.
abbrev pub login_members : Str → Members
login_members name =
    ("msg_id", int 0)
    ∷ ("msg_type", int (client_type_number client_login))
    ∷ ("username", string name)
    ∷ []

module _ (J : Json) (R : RoundTrips J) (ctime : ℕ → Str) (memory : List ℕ)
    (whole : length memory + 1 ≡ buffer_size)
    (bare_short : (i ty : ℕ) → length (J.bytes (J.write (bare_members i ty))) < buffer_size) where
  abbrev buffer : List ℕ
  buffer = memory ++ 0 ∷ []

  module _ (uninitialised : ClientMsgPayload) (sized : length uninitialised ≡ client_payload_size)
      (unset : ServerMsgPayload) (sized_unset : length unset ≡ payload_size)
      (h : ClientMessageHandler) (s : IsSound h) (room : HasRoom h) (now : ℕ) (a : Address) where
    -- The server handles the request with nothing in its send queue; the first message that it then
    -- queues goes to the client, which reads it as the answer to its request.
    pub record IsTold (username : Str) (t : Served) : Type 0 where
      reply : ServerMessage
      rest : List ServerMessage
      queued : t.1 ≡ reply ∷ rest
      addressed : reply.address ≡ a
      line : LoginLine
      success : Bool
      tried :
          try_login J uninitialised client_login username buffer
            (λ text. some (serialize J ctime reply.message))
          ≡ ok (some (success, line))
      agrees :
          if success
          then (owner t.0.connection_manager a
              ≡ some (get_user_id_from_username t.0.user_persistence (c_string username)))
          else ((b : Address) → owner t.0.connection_manager b ≡ owner h.connection_manager b)

    -- The request that `try_login` writes is parsed by the server, and answered.
    abbrev pub IsServed : Str → ClientMessageData → Type 0
    IsServed username request =
        (v : J.Value) × (parse_buffer J cleared (serialize_client_message J request) ≡ ok (some v))
        × Returns (serve_datagram J unset (h, []) (record { value = v; address = a; now = now }))
            (IsTold username)

    module _ (username : Str) (request : ClientMessageData)
        (requested : login_request uninitialised client_login username ≡ ok request) where
      tried_lem :
          (m : ServerMessageData) (ty : ServerMsgType)
          → m.msg_type ≡ ty
          → IsReplyType ty
          → try_login J uninitialised client_login username buffer
              (λ text. some (serialize J ctime m))
            ≡ ok (some (is_login_success ty, line_of ty))
      unfolding try_login
      tried_lem m ty e h = rw requested (
          read_reply_lem J R ctime memory whole bare_short m (subst IsReplyType (sym e) h)
          ∙ ap (λ (t : ServerMsgType). ok (some (is_login_success t, line_of t))) e)

      failure-told :
          (m : ServerMessageData)
          → IsLoginFailure unset sized_unset m.msg_type
          → (line : LoginLine) × (try_login J uninitialised client_login username buffer
                (λ text. some (serialize J ctime m))
              ≡ ok (some (false, line)))
      failure-told m (inl e) = (_, tried_lem m _ e (inr (inl refl)))
      failure-told m (inr (inl e)) = (_, tried_lem m _ e (inr (inr (inl refl))))
      failure-told m (inr (inr e)) = (_, tried_lem m _ e (inr (inr (inr refl))))

      sent :
          (t : Handled) (d : IsAnswered unset sized_unset h (c_string username) a t)
          → dispatch t.0.connection_manager [] t.1
            ≡ record { address = a; message = d.message } ∷ messages t.0.connection_manager d.later
      unfolding dispatch_action
      sent t d =
          dispatch_lem t.0.connection_manager [] t.1 ∙ ap (messages t.0.connection_manager) d.first

      answered-IsTold :
          (t : Handled)
          → IsAnswered unset sized_unset h (c_string username) a t
          → IsTold username (t.0, dispatch t.0.connection_manager [] t.1)
      answered-IsTold t d = elim d.told [
        | inl (e, owned) ↦ record {
          reply = record { address = a; message = d.message };
          rest = messages t.0.connection_manager d.later;
          queued = sent t d;
          addressed = refl;
          line = login_successful;
          success = true;
          tried = tried_lem d.message login_success e (inl refl);
          agrees = owned;
        }
        | inr (e, same) ↦
            let (line, tried) = failure-told d.message e in
            record {
              reply = record { address = a; message = d.message };
              rest = messages t.0.connection_manager d.later;
              queued = sent t d;
              addressed = refl;
              line = line;
              success = false;
              tried = tried;
              agrees = same;
            }
      ]

      module _ (e : request.msg_type ≡ client_login)
          (text : read_c_string request.payload 0 ≡ c_string username)
          (first : request.msg_id ≡ 0) where
        request-members : client_members request ≡ login_members (c_string username)
        unfolding client_members client_payload_members
        request-members = rw first (rw e (rw text refl))

        request-IsServed :
            IsAscii (c_string username)
            → length (J.bytes (J.write (login_members (c_string username)))) < buffer_size
            → IsServed username request
        request-IsServed plain short =
            let (v, parsed, same) =
              client_message_lem J R unset request (rw request-members (plain, tt)) h [] now a in
            let handled : handle_incoming_datagram J unset h [] now v a
                ≡ login unset h [] (c_string username) a =
              same
              ∙ ap
                  (λ (ty : ClientMsgType).
                    handled_as J R unset ty (read_c_string request.payload 0) h [] now a)
                  e
              ∙ ap (λ (n : Str). login unset h [] n a) text in
            (
              v,
              parse_buffer_lem J (replicate 511 0) (serialize_client_message J request) v
                  (rw (request-members, serialize_client_message) (omega (arith, short))) parsed,
              unfold serve_datagram in
                  Returns-bind (IsAnswered unset sized_unset h (c_string username) a)
                    (IsTold username) (handle_incoming_datagram J unset h [] now v a) _
                    (rw handled
                      (login_answered_lem unset sized_unset h s room (c_string username) a))
                    answered-IsTold,
            )

    -- A login with a name that is ASCII and of less than 128 bytes before its first NUL copies it
    -- into the request. If the request with that name, and any reply without a text, are written in
    -- fewer than 512 bytes, the client's buffer of 512 bytes has a NUL at its end, and jsoncpp
    -- reads back the ASCII that it writes: from a sound state that can number one more user and one
    -- more message, with nothing in its send queue, the server parses the request and handles it
    -- without a crash, and the first message that it queues goes to the client. Reading it into the
    -- buffer, try_login returns; if it returns success, the address is then the user's of that
    -- name, and if it returns failure, every address is whose it was. Uninitialised objects have
    -- their sizes.
    pub try_login_lem :
        (username : Str)
        → length (c_string username) < client_payload_size
        → IsAscii (c_string username)
        → length (J.bytes (J.write (login_members (c_string username)))) < buffer_size
        → Returns (login_request uninitialised client_login username) (IsServed username)
    unfolding login_request
    try_login_lem username fits plain short =
        let (p, e, same) =
          Returns-ok _ (strcpy uninitialised 0 username)
            (strcpy_reads uninitialised username (omega (arith, fits, sized))) in
        rw e (request-IsServed username _ (rw (e, login_request) refl) refl same.0 refl plain short)
