-- ===== src/Client/UserCommand.antt =====
-- `user_command` between the input thread (client/user_input.cpp) and the main loop
-- (client/client.cpp). The thread writes a command for a line, and the main loop takes it out; as
-- Shared/Atomic shows of the variable's methods, each of the two is one step.
use inf.Base.{
  Bool, List, [], ap, append-nil, eq_str, eq_ℕ, false, refl, sym, true, ◌++◌, ◌∙◌, ◌∷◌, ◌≡◌, ◌≢◌,
}
use inf.Client.Input.{UserInput, input_follow, input_quit, input_send, no_input}
use inf.Server.Connections.{eq_address}

-- The variable, whether the main loop has seen the end, and what the code does not keep: the commands
-- that were written, taken by the main loop, and replaced by another before that.
pub record UserCommand : Type 0 where
  pub user_command : UserInput
  pub quit_seen : Bool
  pub written : List UserInput
  pub taken : List UserInput
  pub replaced : List UserInput

abbrev pub new_user_command : UserCommand
new_user_command = record {
  user_command = no_input;
  quit_seen = false;
  written = [];
  taken = [];
  replaced = [];
}

-- The command that stands in the variable, if any.
abbrev pub standing : UserInput → List UserInput
standing no_input = []
standing (input_follow d) = input_follow d ∷ []
standing (input_send d) = input_send d ∷ []
standing input_quit = input_quit ∷ []

pub data CommandStep (s t : UserCommand) : Type 0 where
  write_command :
      (c : UserInput)
      → s.quit_seen ≡ false
      → standing c ≡ c ∷ []
      → t ≡ record s {
        user_command = c;
        written = s.written ++ c ∷ [];
        replaced = s.replaced ++ standing s.user_command;
      }
      → CommandStep s t
  -- The variable is reset, unless the command is to quit: then it stays locked, and the loop is left.
  take_command :
      s.quit_seen ≡ false
      → s.user_command ≢ input_quit
      → t ≡ record s { user_command = no_input; taken = s.taken ++ standing s.user_command }
      → CommandStep s t
  take_quit :
      s.quit_seen ≡ false
      → s.user_command ≡ input_quit
      → t ≡ record s { quit_seen = true }
      → CommandStep s t

pub data CommandReach : UserCommand → Type 0 where
  no_commands : CommandReach new_user_command
  one_more : {s t : UserCommand} → CommandReach s → CommandStep s t → CommandReach t

-- The third list is the first two, each in its order, one into the other.
pub data IsMerge : List UserInput → List UserInput → List UserInput → Type 0 where
  both_empty : IsMerge [] [] []
  from_first :
      {xs ys zs : List UserInput} (x : UserInput) → IsMerge xs ys zs → IsMerge (x ∷ xs) ys (x ∷ zs)
  from_second :
      {xs ys zs : List UserInput} (y : UserInput) → IsMerge xs ys zs → IsMerge xs (y ∷ ys) (y ∷ zs)

all_first : (l : List UserInput) → IsMerge l [] l
all_first [] = both_empty
all_first (x ∷ l) = from_first x (all_first l)

all_second : (l : List UserInput) → IsMerge [] l l
all_second [] = both_empty
all_second (x ∷ l) = from_second x (all_second l)

first_longer : (xs ys zs l : List UserInput) → IsMerge xs ys zs → IsMerge (xs ++ l) ys (zs ++ l)
first_longer xs ys zs l both_empty = all_first l
first_longer xs ys zs l (from_first {xs = xs'} {zs = zs'} x m) =
    from_first x (first_longer xs' ys zs' l m)
first_longer xs ys zs l (from_second {ys = ys'} {zs = zs'} y m) =
    from_second y (first_longer xs ys' zs' l m)

second_longer : (xs ys zs l : List UserInput) → IsMerge xs ys zs → IsMerge xs (ys ++ l) (zs ++ l)
second_longer xs ys zs l both_empty = all_second l
second_longer xs ys zs l (from_first {xs = xs'} {zs = zs'} x m) =
    from_first x (second_longer xs' ys zs' l m)
second_longer xs ys zs l (from_second {ys = ys'} {zs = zs'} y m) =
    from_second y (second_longer xs ys' zs' l m)

-- Every command that was written was taken, or replaced, or stands in the variable, as the last one.
pub record IsAccounted (s : UserCommand) : Type 0 where
  pub gone : List UserInput
  pub merged : IsMerge s.taken s.replaced gone
  pub all_written : s.written ≡ gone ++ standing s.user_command

-- In every reachable state of the variable between the input thread and the main loop, the commands
-- that were written are those that the main loop took and those that were replaced before it did,
-- each in order, one into the other, and then the one that stands in the variable, if any.
pub CommandReach-IsAccounted : (s : UserCommand) → CommandReach s → IsAccounted s
CommandReach-IsAccounted s no_commands = record {
  gone = [];
  merged = both_empty;
  all_written = refl;
}
CommandReach-IsAccounted s (one_more {s = r} h w) = kept r s (CommandReach-IsAccounted r h) w
  where
    kept : (r s : UserCommand) → IsAccounted r → CommandStep r s → IsAccounted s
    kept r s v (write_command c going stands same) = rw same (record {
      gone = v.gone ++ standing r.user_command;
      merged = second_longer r.taken r.replaced v.gone (standing r.user_command) v.merged;
      all_written =
          ap (λ (l : List UserInput). l ++ c ∷ []) v.all_written
          ∙ ap (◌++◌ (v.gone ++ standing r.user_command)) (sym stands);
    })
    kept r s v (take_command going other same) = rw same (record {
      gone = v.gone ++ standing r.user_command;
      merged = first_longer r.taken r.replaced v.gone (standing r.user_command) v.merged;
      all_written = v.all_written ∙ sym (append-nil (v.gone ++ standing r.user_command));
    })
    kept r s v (take_quit going quit same) =
        rw same (record { gone = v.gone; merged = v.merged; all_written = v.all_written })
