-- ===== src/Client/Session/Requests.antt =====
-- What a session pushes: numbered requests, and at its end a logout.
use inf.Base.{
  All, All-append, Bool, List, Returns, Returns-bind, Returns-if, Returns-mono, [], ap, arith,
  eq_str, eq_ℕ, false, inl, inr, length, none, ok, refl, some, sym, true, ℕ, ◌++◌, ◌<◌, ◌||◌, ◌∙◌,
  ◌∷◌, ◌≡◌, ◌≤◌, ◌⊎◌,
}
use inf.Client.Commands.{request_lem}
use inf.Client.Input.{
  Reaction, UserInput, handle_user_input, input_follow, input_quit, input_send, no_input, request,
}
use inf.Client.Message.{
  ClientMessageData, ClientMsgType, client_follow, client_payload_size, client_send,
}
use inf.Client.Sender.{fn_client_sender, is_logout, new_sender}
use inf.Client.Sender.Order.{IsLogoutFree, concat, fn_client_sender_lem, sender, texts}
use inf.Client.Session.{
  ClientMain, Round, ServerLine, clean_up, main_loop, main_round, new_client_main, push_message,
  read_server_message, read_server_messages,
}
use inf.Server.Connections.{eq_address}
use inf.Shared.Ids.{MsgIdManager, increment}
use inf.Shared.Json.{Json}
use inf.Shared.Memory.{c_string}

-- The ids of a list of messages are those that follow `n`, in order.
abbrev pub AreNumbered : ℕ → List ClientMessageData → Type 0
AreNumbered n [] = Unit {0}
AreNumbered n (m ∷ ms) = (m.msg_id ≡ increment n) × AreNumbered (increment n) ms

abbrev pub last_id : ℕ → List ClientMessageData → ℕ
last_id n [] = n
last_id n (m ∷ ms) = last_id (increment n) ms

-- What holds of the locals of `main`.
pub record IsNumbered (c : ClientMain) : Type 0 where
  pub numbered : AreNumbered 0 c.send_queue
  pub next : c.msg_id_manager.msg_id ≡ last_id 0 c.send_queue
  pub requests : IsLogoutFree c.send_queue

numbered-append :
    (n : ℕ) (ms : List ClientMessageData) (m : ClientMessageData)
    → AreNumbered n ms
    → m.msg_id ≡ increment (last_id n ms)
    → AreNumbered n (ms ++ m ∷ [])
numbered-append n [] m h e = (e, tt)
numbered-append n (x ∷ ms) m h e = (h.0, numbered-append (increment n) ms m h.1 e)

last_id-append :
    (n : ℕ) (ms : List ClientMessageData) (m : ClientMessageData)
    → last_id n (ms ++ m ∷ []) ≡ increment (last_id n ms)
last_id-append n [] m = refl
last_id-append n (x ∷ ms) m = last_id-append (increment n) ms m

-- A command whose text fits the array that it is copied to.
abbrev pub IsCommand : UserInput → Type 0
IsCommand (input_follow d) = length (c_string d) < 20
IsCommand (input_send d) = length (c_string d) < 128
IsCommand _ = Unit {0}

-- A command pushes nothing, or one request under the next id.
record IsRequest (ids : MsgIdManager) (r : Reaction) (m : ClientMessageData) : Type 0 where
  pushed : r.0 ≡ some m
  id : m.msg_id ≡ increment ids.msg_id
  plain : is_logout m.msg_type ≡ false
  taken : r.1.msg_id ≡ increment ids.msg_id

abbrev IsReaction : MsgIdManager → Reaction → Type 0
IsReaction ids r =
    ((r.0 ≡ none) × (r.1.msg_id ≡ ids.msg_id)) ⊎ ((m : ClientMessageData) × IsRequest ids r m)

reacted-IsNumbered :
    (c : ClientMain) (t : Reaction) (finish : Bool) (lines : List ServerLine)
    → IsNumbered c
    → IsReaction c.msg_id_manager t
    → IsNumbered (record {
      msg_id_manager = t.1;
      send_queue = push_message c.send_queue t.0;
      finish_program = finish;
      lines = lines;
    })
reacted-IsNumbered c t finish lines v (inl (nothing, same)) =
    let kept : push_message c.send_queue t.0 ≡ c.send_queue =
      ap (push_message c.send_queue) nothing in
    record {
      numbered = rw kept v.numbered;
      next = rw kept (same ∙ v.next);
      requests = rw kept v.requests;
    }
reacted-IsNumbered c t finish lines v (inr (m, r)) =
    let longer : push_message c.send_queue t.0 ≡ c.send_queue ++ m ∷ [] =
      ap (push_message c.send_queue) r.pushed in
    record {
      numbered =
          rw longer (numbered-append 0 c.send_queue m v.numbered (r.id ∙ ap increment v.next));
      next = rw longer (r.taken ∙ ap increment v.next ∙ sym (last_id-append 0 c.send_queue m));
      requests = rw longer (
          All-append (λ (x : ClientMessageData). is_logout x.msg_type ≡ false) c.send_queue (m ∷ [])
            v.requests (r.plain, tt));
    }

module _ (J : Json) (uninitialised_text uninitialised : List ℕ)
    (sized_text : length uninitialised_text ≡ client_payload_size)
    (sized : length uninitialised ≡ client_payload_size) where
  -- A value whose members have the types that the client asks for.
  abbrev pub IsReadableReply : J.Value → Type 0
  IsReadableReply v = Returns (read_server_message J v) (λ r. Unit {0})

  -- What a round may bring.
  abbrev pub IsRound : Round J uninitialised_text uninitialised → Type 0
  IsRound r = IsCommand r.user_input × All IsReadableReply r.server_messages

  request-IsReaction :
      (size : ℕ) (ty : ClientMsgType) (d : List ℕ) (ids : MsgIdManager)
      → is_logout ty ≡ false
      → size ≤ client_payload_size
      → length (c_string d) < size
      → Returns (request uninitialised_text uninitialised size ty d ids) (IsReaction ids)
  request-IsReaction size ty d ids plain le fits =
      Returns-mono _ (IsReaction ids) (request uninitialised_text uninitialised size ty d ids)
        (λ r (m, e, id, same, text). inr (
          m,
          record {
            pushed = ap (λ (x : Reaction). x.0) e;
            id = id;
            plain = ap is_logout same ∙ plain;
            taken = ap (λ (x : Reaction). x.1.msg_id) e;
          },
        ))
        (request_lem uninitialised_text uninitialised_text uninitialised sized_text sized_text sized
          size ty d ids le fits)

  reaction_lem :
      (i : UserInput) (ids : MsgIdManager)
      → IsCommand i
      → Returns (handle_user_input uninitialised_text uninitialised i ids) (IsReaction ids)
  unfolding handle_user_input
  reaction_lem no_input ids h = inl (refl, refl)
  reaction_lem (input_follow d) ids h =
      request-IsReaction 20 client_follow d ids refl (omega arith) h
  reaction_lem (input_send d) ids h = request-IsReaction 128 client_send d ids refl (omega arith) h
  reaction_lem input_quit ids h = inl (refl, refl)

  messages_read :
      (vs : List J.Value) (lines : List ServerLine) (finish : Bool)
      → All IsReadableReply vs
      → Returns (read_server_messages J vs lines finish) (λ r. Unit {0})
  unfolding read_server_messages
  messages_read [] lines finish h = tt
  messages_read (v ∷ vs) lines finish h =
      Returns-bind (λ r. Unit {0}) (λ r. Unit {0}) (read_server_message J v) _ h.0
        λ r t. messages_read vs (lines ++ r.0 ∷ []) (finish || r.1) h.1

  round-IsNumbered :
      (c : ClientMain) (r : Round J uninitialised_text uninitialised)
      → IsNumbered c
      → IsRound r
      → Returns (main_round J uninitialised_text uninitialised c r) IsNumbered
  unfolding main_round
  round-IsNumbered c r v h =
      Returns-bind (IsReaction c.msg_id_manager) IsNumbered
        (handle_user_input uninitialised_text uninitialised r.user_input c.msg_id_manager) _
        (reaction_lem r.user_input c.msg_id_manager h.0)
        λ t reacted.
          Returns-bind (λ s. Unit {0}) IsNumbered
            (read_server_messages J r.server_messages c.lines (c.finish_program || t.2)) _
            (messages_read r.server_messages c.lines (c.finish_program || t.2) h.1)
            λ s read. reacted-IsNumbered c t s.1 s.0 v reacted

  main_loop-IsNumbered :
      (c : ClientMain) (rounds : List (Round J uninitialised_text uninitialised))
      → IsNumbered c
      → All IsRound rounds
      → Returns (main_loop J uninitialised_text uninitialised c rounds) IsNumbered
  unfolding main_loop
  main_loop-IsNumbered c [] v h = v
  main_loop-IsNumbered c (r ∷ rest) v h = Returns-if IsNumbered c.finish_program (ok c) _ v (
      Returns-bind IsNumbered IsNumbered (main_round J uninitialised_text uninitialised c r) _
        (round-IsNumbered c r v h.0) λ c' v'. main_loop-IsNumbered c' rest v' h.1)

  -- What the clean-up leaves to the sender: numbered messages, the logout last; and however the
  -- drains cut them, the sender writes all of them in order and leaves its loop.
  pub record IsFinished (c : ClientMain) : Type 0 where
    pub numbered_queue : AreNumbered 0 c.send_queue
    pub sent :
        (drains : List (List ClientMessageData))
        → concat drains ≡ c.send_queue
        → fn_client_sender J (new_sender J) drains ≡ (sender J (texts J c.send_queue) true, true)

  finished_lem :
      (c : ClientMain) → IsNumbered c → IsFinished (clean_up J uninitialised_text uninitialised c)
  unfolding clean_up
  finished_lem c v = record {
    numbered_queue = numbered-append 0 c.send_queue _ v.numbered (ap increment v.next);
    sent = λ drains e.
        fn_client_sender_lem J (new_sender J) drains c.send_queue _ refl v.requests refl e;
  }

  -- A session in which the texts of the commands fit their arrays and the server's values are
  -- readable does not crash, and its clean-up leaves messages with the ids 1, 2 and so on, wrapping
  -- around; the sender then writes all of them, in order, and leaves its loop, however its drains
  -- cut them. Uninitialised objects have their sizes.
  pub session_lem :
      (rounds : List (Round J uninitialised_text uninitialised))
      → All IsRound rounds
      → Returns
          (main_loop J uninitialised_text uninitialised new_client_main rounds)
          (λ c. IsFinished (clean_up J uninitialised_text uninitialised c))
  session_lem rounds h =
      Returns-mono IsNumbered (λ c. IsFinished (clean_up J uninitialised_text uninitialised c))
        (main_loop J uninitialised_text uninitialised new_client_main rounds) finished_lem
        (main_loop-IsNumbered new_client_main rounds
          (record { numbered = tt; next = refl; requests = tt }) h)
