-- ===== src/Client/Session/Delivered.antt =====
-- The way of a message from one client to the other's screen.
use inf.Server.Connections
use inf.Base.{
  List, Returns, Returns-and, Returns-mono, Str, [], ap, ap₂, arith, contains, eq_str, eq_ℕ, false,
  inl, length, none, ok, refl, some, subst, sym, true, ℕ, ◌++◌, ◌+◌, ◌<◌, ◌^◌, ◌∙◌, ◌∷◌, ◌≡◌, ◌≢◌,
}
use inf.Client.Session.{ServerLine, read_server_message, received_message}
use inf.Client.Session.Reading.{meant, read_server_message_lem}
use inf.Client.Session.Texts.{author-IsAscii, printable-IsAscii, text_members, username-IsAscii}
use inf.Server.Connections.{Address, UserConnectionManager, eq_address, get_user_id_from_address}
use inf.Server.Connections.Invariant.{IsConsistent}
use inf.Server.Connections.Sessions.{owner}
use inf.Server.Handler.{ClientMessageHandler, Handled, complete_login, login, send_message}
use inf.Server.Handler.FirstLogin.{known_user, login_completes, not_refused}
use inf.Server.Handler.Invariant.{HasRoom, IsSound}
use inf.Server.Handler.Login.{Completed, complete_login_lem}
use inf.Server.Handler.LoginAnswer.{IsCompleted, completed_lem}
use inf.Server.Handler.OfflineMessage.{
  Received, after_send, follower_known, offline_follower_receives,
}
use inf.Server.Loop.{dispatch_action}
use inf.Server.Loop.Dispatch.{sent_to, sent_to-dispatch_action}
use inf.Server.Message.{
  ServerAction, ServerMessageData, ServerMsgPayload, ServerMsgType, action_message_address,
  action_message_user, members, payload_body, payload_members, payload_size, payload_timestap,
  payload_username, serialize, server_send_command,
}
use inf.Server.NotificationManager.Fan.{IsDelivery, shown_author}
use inf.Server.Persistence.{get_followers, get_username_from_user_id}
use inf.Server.Persistence.Pending.{SameUsers-exists, SameUsers-username}
use inf.Shared.Buffer.{buffer_size, parse_buffer, parse_buffer_lem}
use inf.Shared.Ids.{invalid_user_id}
use inf.Shared.Json.{IsAscii, IsPlain, Json, RoundTrips}
use inf.Shared.Validation.{is_valid_message, is_valid_message_iff}

module _ (J : Json) (R : RoundTrips J) (ctime : ℕ → Str) (uninitialised : ServerMsgPayload)
    (sized : length uninitialised ≡ payload_size) (h : ClientMessageHandler) (s : IsSound h)
    (room : HasRoom h) (acts : List ServerAction) (now u : ℕ) (small : now < 2 ^ 64) (sent : Str)
    (valid : is_valid_message sent ≡ true) (f : ℕ)
    (follows : contains f (get_followers h.user_persistence u) ≡ true)
    (offline : Connections.user_id_exists h.connection_manager f ≡ false) (t : Handled)
    (sends : send_message uninitialised h acts now u sent ≡ ok t) (memory : List ℕ)
    (whole : length memory + 1 ≡ buffer_size) (plain : IsAscii (ctime now))
    (short : (i : ℕ)
      → length (
          J.bytes (
            J.write (
              text_members
                (shown_author (get_username_from_user_id h.user_persistence u) sent)
                sent
                (ctime now)
                i)))
        < buffer_size) where
  abbrev follower_name : Str
  follower_name = get_username_from_user_id h.user_persistence f

  -- The line that the text is to be printed as.
  abbrev delivered_line : ServerLine
  delivered_line =
      received_message (shown_author (get_username_from_user_id h.user_persistence u) sent) sent
        (ctime now)

  -- The login's last action is a message that goes once to the address; its client, which reads it
  -- into its buffer, parses it and prints it.
  abbrev pub IsPrintedAt : Address → Handled → Type 0
  IsPrintedAt a r =
      (before : List ServerAction) × (m : ServerMessageData) × (r.1
        ≡ before ++ action_message_user f m ∷ [])
      × (sent_to a (dispatch_action r.0.connection_manager (action_message_user f m)) ≡ 1)
      × (v : J.Value) × (parse_buffer J (memory ++ 0 ∷ []) (serialize J ctime m) ≡ ok (some v))
      × (read_server_message J v ≡ ok (delivered_line, false))

  abbrev author : Str
  author = shown_author (get_username_from_user_id h.user_persistence u) sent

  delivered-members :
      (m : ServerMessageData)
      → m.msg_type ≡ server_send_command
      → payload_username m.payload ≡ author
      → payload_body m.payload ≡ sent
      → payload_timestap m.payload ≡ now
      → members ctime m ≡ text_members author sent (ctime now) m.msg_id
  unfolding members payload_members
  delivered-members m ty named body time = rw ty (rw named (rw body (rw time refl)))

  text-IsPlain : (i : ℕ) → IsPlain (text_members author sent (ctime now) i)
  text-IsPlain i = (
    author-IsAscii (get_username_from_user_id h.user_persistence u) sent
        (username-IsAscii h.user_persistence u s.users)
        (printable-IsAscii true sent ((is_valid_message_iff sent).0 valid).2),
    (printable-IsAscii true sent ((is_valid_message_iff sent).0 valid).2, (plain, tt)),
  )

  printed_lem :
      (m : ServerMessageData)
      → m.msg_type ≡ server_send_command
      → payload_username m.payload ≡ author
      → payload_body m.payload ≡ sent
      → payload_timestap m.payload ≡ now
      → (v : J.Value) × (parse_buffer J (memory ++ 0 ∷ []) (serialize J ctime m) ≡ ok (some v))
        × (read_server_message J v ≡ ok (delivered_line, false))
  printed_lem m ty named body time =
      let same = delivered-members m ty named body time in
      let (v, parsed, shown) =
        read_server_message_lem J R ctime m (subst IsPlain (sym same) (text-IsPlain m.msg_id)) in
      (
        v,
        parse_buffer_lem J memory (serialize J ctime m) v
            (rw (same, serialize) (omega (arith, whole, short m.msg_id))) parsed,
        shown
            ∙ ap (λ (x : ServerMsgType). ok (meant ctime x m.payload)) ty
            ∙ ap₂
                (λ (b : Str) (n : ℕ).
                  ok (received_message (payload_username m.payload) b (ctime n), false))
                body time
            ∙ ap (λ (n : Str). ok (received_message n sent (ctime now), false)) named,
      )

  -- A message for a user that owns the address goes there once.
  sent_once :
      (c : UserConnectionManager) (m : ServerMessageData) (a : Address)
      → IsConsistent c
      → f ≢ invalid_user_id
      → owner c a ≡ some f
      → sent_to a (dispatch_action c (action_message_user f m)) ≡ 1
  sent_once c m a v proper e =
      sent_to-dispatch_action c v f m a proper ∙ unfold get_user_id_from_address in ground arith

  printed_at :
      (a : Address) (r : Handled) (before : List ServerAction) (d : ServerAction)
      → IsConsistent r.0.connection_manager
      → f ≢ invalid_user_id
      → owner r.0.connection_manager a ≡ some f
      → r.1 ≡ before ++ d ∷ []
      → IsDelivery (get_username_from_user_id h.user_persistence u) sent now f d
      → IsPrintedAt a r
  printed_at a r before (action_message_address b m) v proper e final i = absurd i
  printed_at a r before (action_message_user w m) v proper e final (same, ty, author, body, time) =
      let (value, parsed, shown) = printed_lem m ty author body time in
      (
        before,
        m,
        final ∙ ap (λ (k : ℕ). before ++ action_message_user k m ∷ []) same,
        sent_once r.0.connection_manager m a v proper e,
        value,
        parsed,
        shown,
      )

  abbrev IsDone : Address → Handled → Type 0
  IsDone a r = IsCompleted uninitialised sized t.0 f a r × Completed t.0 r.0

  abbrev IsReceived : Handled → Type 0
  IsReceived =
      Received uninitialised sized h s room acts now u small sent valid f follows offline t sends

  -- From a sound state with room for one more message, after user `u` has sent a valid text, a
  -- follower that was offline and then logs in under its name, from an address that nobody is
  -- logged in at: the login ends well, and its last action is a message that goes once to that
  -- address. If jsoncpp reads back the ASCII that it writes, ctime gives ASCII, a message with this
  -- author, text and time is written in fewer than 512 bytes under any id, and the follower's
  -- buffer of 512 bytes has a NUL at its end, what the server writes for it is parsed from that
  -- buffer, and the follower's client prints the text under the name of `u`, with the time of
  -- sending (a name of 20 bytes is shown with the text behind it). Uninitialised objects have their
  -- sizes.
  pub offline_follower_reads :
      (a : Address)
      → owner t.0.connection_manager a ≡ none
      → Returns (login uninitialised t.0 [] follower_name a) (IsPrintedAt a)
  offline_follower_reads a unknown =
      let b =
        after_send uninitialised sized h s room acts now u small sent valid f follows offline t
          sends in
      let st = b.next.sound in
      let user =
        SameUsers-exists h.user_persistence t.0.user_persistence b.same_users f
        ∙ follower_known uninitialised sized h s room acts now u small sent valid f follows offline
            t sends in
      let away = b.same_sessions.same_exists f ∙ offline in
      let proper = (known_user t.0.user_persistence f st.users user).1 in
      let completes : login uninitialised t.0 [] follower_name a
          ≡ complete_login uninitialised t.0 [] f a =
        ap (λ (n : Str). login uninitialised t.0 [] n a)
          (sym (SameUsers-username h.user_persistence t.0.user_persistence b.same_users f))
        ∙ login_completes uninitialised sized t.0 st [] f user a away unknown in
      let completed =
        completed_lem uninitialised sized t.0 st f a user proper
          (not_refused uninitialised sized t.0 st [] f user a away unknown) in
      let kept = complete_login_lem uninitialised sized t.0 st [] f a user proper (inl unknown) in
      let received =
        offline_follower_receives uninitialised sized h s room acts now u small sent valid f follows
          offline t sends [] a unknown in
      Returns-mono (λ r. IsReceived r × IsDone a r) (IsPrintedAt a)
        (login uninitialised t.0 [] follower_name a)
        (λ r ((before, d, final, i), (done, sound)).
          printed_at a r before d (Completed.sound sound).sessions proper (IsCompleted.owned done)
            final i)
        (Returns-and IsReceived (IsDone a) (login uninitialised t.0 [] follower_name a) received
          (rw completes (Returns-and _ _ (complete_login uninitialised t.0 [] f a) completed kept)))
