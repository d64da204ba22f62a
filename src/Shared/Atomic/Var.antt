-- ===== src/Shared/Atomic/Var.antt =====
-- AtomicVar of shared/atomic.h.
use inf.Base.{Option, eq_str, eq_ℕ, none, refl, some, ℕ, ◌<◌, ◌≡◌}
use inf.Server.Connections.{eq_address}
use inf.Shared.Atomic.Guarded.{Guarded, IsRespected, Reach, Reach-IsGuarded, one_inside}

module _ (A : Type 0) where
  -- The methods' locals: before and after each access. Between `lock` and `unlock` a thread may read
  -- and write as often as it likes.
  pub data VarLocal : Type 0 where
    reading : VarLocal
    have_read : (copied_val : A) → VarLocal
    writing : (new_val : A) → VarLocal
    have_written : (new_val : A) → VarLocal
    replacing : (new_val : A) → VarLocal
    swapping : (copied_val new_val : A) → VarLocal
    have_replaced : (copied_val new_val : A) → VarLocal
    -- The value that the thread read or wrote last, if any.
    locked : Option A → VarLocal

  pub data VarStart : VarLocal → Type 0 where
    read : VarStart reading
    write : (new_val : A) → VarStart (writing new_val)
    read_and_replace : (new_val : A) → VarStart (replacing new_val)
    lock : VarStart (locked none)

  pub data VarBody (val : A) : VarLocal → A → VarLocal → Type 0 where
    read_copy : VarBody val reading val (have_read val)
    write_store : (new_val : A) → VarBody val (writing new_val) new_val (have_written new_val)
    replace_copy : (new_val : A) → VarBody val (replacing new_val) val (swapping val new_val)
    replace_store :
        (copied_val new_val : A)
        → VarBody val (swapping copied_val new_val) new_val (have_replaced copied_val new_val)
    locked_read : (last : Option A) → VarBody val (locked last) val (locked (some val))
    locked_write :
        (last : Option A) (new_val : A) → VarBody val (locked last) new_val (locked (some new_val))

  pub data VarDone : VarLocal → Type 0 where
    read_returns : (copied_val : A) → VarDone (have_read copied_val)
    write_returns : (new_val : A) → VarDone (have_written new_val)
    replace_returns : (copied_val new_val : A) → VarDone (have_replaced copied_val new_val)
    unlock : (last : Option A) → VarDone (locked last)

  -- What a thread inside knows of the value: it is what it read, or what it wrote.
  abbrev pub Knows : A → VarLocal → Type 0
  Knows val (have_read copied_val) = val ≡ copied_val
  Knows val (have_written new_val) = val ≡ new_val
  Knows val (swapping copied_val new_val) = val ≡ copied_val
  Knows val (have_replaced copied_val new_val) = val ≡ new_val
  Knows val (locked (some last)) = val ≡ last
  Knows val _ = Unit {0}

  var_entered : (val : A) (l : VarLocal) → Unit {0} → VarStart l → Knows val l
  var_entered val l h read = tt
  var_entered val l h (write new_val) = tt
  var_entered val l h (read_and_replace new_val) = tt
  var_entered val l h lock = tt

  var_accessed :
      (val val' : A) (l l' : VarLocal) → Knows val l → VarBody val l val' l' → Knows val' l'
  var_accessed val val' l l' h read_copy = refl
  var_accessed val val' l l' h (write_store new_val) = refl
  var_accessed val val' l l' h (replace_copy new_val) = refl
  var_accessed val val' l l' h (replace_store copied_val new_val) = refl
  var_accessed val val' l l' h (locked_read last) = refl
  var_accessed val val' l l' h (locked_write last new_val) = refl

  var-IsRespected : IsRespected VarStart VarBody VarDone (λ val. Unit {0}) Knows
  var-IsRespected = record {
    entered = var_entered;
    accessed = var_accessed;
    left = λ val l h d. tt;
  }

  -- In every reachable state of any number of threads, a thread inside a method knows the value,
  -- which is what it read or wrote last, if it did; and no other thread is inside.
  pub var_exclusive :
      (n : ℕ) (init_val : A) (g : Guarded VarStart VarBody VarDone) (i : ℕ) (l : VarLocal)
      → Reach VarStart VarBody VarDone n init_val g
      → i < n
      → g.thread i ≡ some l
      → Knows g.object l × ((j : ℕ) (l' : VarLocal) → j < n → g.thread j ≡ some l' → i ≡ j)
  var_exclusive n init_val g i l r lt e =
      let v =
        Reach-IsGuarded VarStart VarBody VarDone (λ val. Unit {0}) Knows n init_val g
          var-IsRespected tt r in
      (
        v.held i l lt e,
        λ j l' lt' e'.
            one_inside VarStart VarBody VarDone (λ val. Unit {0}) Knows n g v i lt j l l' lt' e e',
      )
