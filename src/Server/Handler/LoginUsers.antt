-- ===== src/Server/Handler/LoginUsers.antt =====
-- What a login's lookup of the user, and the new address, leave as they were.
use inf.Server.Connections
use inf.Server.Persistence
use inf.Base.{Str, [], arith, eq_str, eq_ℕ, inl, inr, suc, true, ℕ, ◌+◌, ◌<◌, ◌≡◌, ◌⊎◌}
use inf.Server.Connections.{Address, UserConnectionManager, add_or_update_user_address, eq_address}
use inf.Server.NotificationManager.Counts.{references, references-more, references-same}
use inf.Server.Persistence.{UserPersistence, add_or_update_user}
use inf.Server.Persistence.Invariant.{IsUser, IsWellFormed}
use inf.Server.Persistence.Pending.{waiting}
use inf.Shared.Ids.{int_limit}

add_waiting :
    (p : UserPersistence) (username : Str) (u : ℕ)
    → IsWellFormed p
    → p.last_user_id + 1 < int_limit
    → waiting (add_or_update_user p username).1 u ≡ waiting p u
unfolding add_or_update_user
add_waiting p username u v room = ground (arith, v.data_ok (p.last_user_id + 1))

fresh_waiting : (p : UserPersistence) → IsWellFormed p → waiting p (suc p.last_user_id) ≡ []
fresh_waiting p v = ground (arith, v.data_ok (suc p.last_user_id))

pub add_last :
    (p : UserPersistence) (username : Str)
    → p.last_user_id + 1 < int_limit
    → ((add_or_update_user p username).1.last_user_id ≡ p.last_user_id)
      ⊎ ((add_or_update_user p username).1.last_user_id ≡ suc p.last_user_id)
unfolding add_or_update_user
add_last p username room = ground arith

pub references-add_or_update_user :
    (p : UserPersistence) (username : Str) (id : ℕ)
    → IsWellFormed p
    → p.last_user_id + 1 < int_limit
    → references (add_or_update_user p username).1 id ≡ references p id
references-add_or_update_user p username id v room = elim (add_last p username room) [
  | inl e ↦
      references-same p (add_or_update_user p username).1 e (λ u. add_waiting p username u v room)
        id
  | inr e ↦
      references-more p (add_or_update_user p username).1 e (λ u. add_waiting p username u v room)
        (fresh_waiting p v) id
]

pub keeps_IsUser :
    (p : UserPersistence) (username : Str) (w : ℕ)
    → IsUser p w
    → IsUser (add_or_update_user p username).1 w
unfolding add_or_update_user Persistence.user_id_exists
keeps_IsUser p username w h = ground arith

-- Who is logged in after an address is added was so before, or is its user.
pub exists-add :
    (c : UserConnectionManager) (u w : ℕ) (a : Address)
    → Connections.user_id_exists (add_or_update_user_address c u a) w ≡ true
    → (Connections.user_id_exists c w ≡ true) ⊎ (w ≡ u)
unfolding add_or_update_user_address Connections.user_id_exists
exists-add c u w a h = ground arith
