-- ===== src/Shared/Ids.antt =====
-- shared/msg_id.h, shared/msg_id.cpp and server/server_defines.h: the counters that number users,
-- notifications and messages. An `int` is its 32-bit pattern, so that `++` wraps around; at the
-- largest `int` the source leaves the result undefined, and the model takes the wrapped pattern.
use inf.Base.{Bool, ltb, ℕ, ◌%◌, ◌+◌, ◌^◌}

-- The number of 32-bit patterns, and of the nonnegative ones among them.
abbrev pub word_values : ℕ
word_values = 2 ^ 32

abbrev pub int_limit : ℕ
int_limit = 2 ^ 31

-- `++` on an `int` or an `unsigned int`.
abbrev pub increment : ℕ → ℕ
increment n = (n + 1) % word_values

-- `<` on two patterns read as `int`.
abbrev pub int_ltb : ℕ → ℕ → Bool
int_ltb a b = ltb ((a + int_limit) % word_values) ((b + int_limit) % word_values)

abbrev pub invalid_user_id : ℕ
invalid_user_id = 0

abbrev pub invalid_notification_id : ℕ
invalid_notification_id = 0

pub record MsgIdManager : Type 0 where
  pub msg_id : ℕ

abbrev pub new_msg_id_manager : MsgIdManager
new_msg_id_manager = record { msg_id = 0 }

abbrev pub last_msg_id : MsgIdManager → ℕ
last_msg_id m = m.msg_id

-- The new id, and the manager that has handed it out.
abbrev pub next_msg_id : MsgIdManager → ℕ × MsgIdManager
next_msg_id m = (increment m.msg_id, record { msg_id = increment m.msg_id })
